-- ===== src/User/FromJson.antt =====
-- User::from_json.
use eternal_blue.Prelude.{
  Bytes, codes, ◌==◌, ℕ-tested, [], ◌∷◌, ◌++◌, if◌then◌else◌, length, ◌≡◌, List, ap, sym, ◌∙◌, true,
  ℕ, arith, All,
}
use eternal_blue.Prelude.Int.{ℤ}
use eternal_blue.Prelude.Decimal.{to_string}
use eternal_blue.Prelude.Exec.{Result, ok, err, runtime_error}
use eternal_blue.Prelude.Exec.Pure.{◌>>=◌, bind-eq-ok}
use eternal_blue.Sodium.{Sodium}
use eternal_blue.Json.{JsonLib}
use eternal_blue.Json.Fields.{
  parse_as, require_fields, string_at, require_fields-eq-ok, parse_as-eq-ok,
}
use eternal_blue.Base64.{from_base64url}
use eternal_blue.User.{User}

abbrev pub required : List Bytes
required = codes "username" ∷ codes "user_id" ∷ codes "public_key" ∷ codes "key_version" ∷ []

abbrev wrong_size : Bytes → ℕ → Bytes
wrong_size username size =
    codes "User::from_json: public key for '"
    ++ (username ++ (codes "' is " ++ (to_string size ++ codes " bytes; expected 32 (X25519)")))

-- The check of the size, and the copy into the array.
unfoldable pub checked_user : Bytes → Bytes → ℤ → Bytes → Result User
unfolding to_string
checked_user username user_id key_version raw =
    if length raw == 32
    then ok (record {
      user_id = user_id;
      username = username;
      public_key = raw;
      key_version = key_version;
    })
    else err (runtime_error (wrong_size username (length raw)))

module _ ⦃sodium : Sodium⦄ ⦃json : JsonLib⦄ where
  -- What follows the check of the fields.
  unfoldable pub user_fields : json.Json → Result User
  unfolding string_at checked_user from_base64url
  user_fields j = do
    username ← string_at j (codes "username")
    user_id ← string_at j (codes "user_id")
    version ← json.at j (codes "key_version")
    key_version ← json.get_int version
    encoded ← string_at j (codes "public_key")
    raw ← from_base64url encoded
    checked_user username user_id key_version raw

  unfoldable pub from_json : Bytes → Result User
  unfolding parse_as require_fields user_fields
  from_json s = do
    j ← parse_as (codes "User") s
    u ← require_fields (codes "User") required j
    user_fields j

  checked_user-eq-ok :
      (username user_id : Bytes) (key_version : ℤ) (raw : Bytes) (u : User)
      → checked_user username user_id key_version raw ≡ ok u
      → (length u.public_key ≡ 32)
        × (u ≡ record {
          user_id = user_id;
          username = username;
          public_key = raw;
          key_version = key_version;
        })
  unfolding checked_user
  checked_user-eq-ok username user_id key_version raw u h = ground arith

  -- A user that is read from a response has the texts of the fields `username` and `user_id`, and a
  -- key of 32 bytes, the decoding of the field `public_key`; the response is an object with all four
  -- required fields.
  pub from_json_sound :
      (s : Bytes) (u : User)
      → from_json s ≡ ok u
      → (j : json.Json) × (encoded : Bytes) × (json.parse s ≡ ok j)
        × All (λ field. json.contains j field ≡ true) required
        × (string_at j (codes "username") ≡ ok u.username)
        × (string_at j (codes "user_id") ≡ ok u.user_id)
        × (string_at j (codes "public_key") ≡ ok encoded)
        × (from_base64url encoded ≡ ok u.public_key)
        × (length u.public_key ≡ 32)
  unfolding from_json user_fields
  from_json_sound s u h =
      let (j, parsed, h1) = bind-eq-ok (parse_as (codes "User") s) _ u h in
      let (_, all, h2) = bind-eq-ok (require_fields (codes "User") required j) _ u h1 in
      let (username, e1, h3) = bind-eq-ok (string_at j (codes "username")) _ u h2 in
      let (user_id, e2, h4) = bind-eq-ok (string_at j (codes "user_id")) _ u h3 in
      let (version, e3, h5) = bind-eq-ok (json.at j (codes "key_version")) _ u h4 in
      let (key_version, e4, h6) = bind-eq-ok (json.get_int version) _ u h5 in
      let (encoded, e5, h7) = bind-eq-ok (string_at j (codes "public_key")) _ u h6 in
      let (raw, e6, h8) = bind-eq-ok (from_base64url encoded) _ u h7 in
      let (size, e) = checked_user-eq-ok username user_id key_version raw u h8 in
      (
        j,
        encoded,
        parse_as-eq-ok (codes "User") s j parsed,
        require_fields-eq-ok (codes "User") required j all,
        e1 ∙ ap (λ v. ok v.username) (sym e),
        e2 ∙ ap (λ v. ok v.user_id) (sym e),
        e5,
        e6 ∙ ap (λ v. ok v.public_key) (sym e),
        size,
      )
