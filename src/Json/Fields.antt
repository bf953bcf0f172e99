-- ===== src/Json/Fields.antt =====
-- The first steps that User::from_json and Message::from_json share.
use eternal_blue.Prelude.{Bytes, codes, true, List, [], ◌∷◌, ◌++◌, if◌then◌else◌, ◌≡◌, All, arith}
use eternal_blue.Prelude.Exec.{Error, Result, ok, err, json_error, runtime_error}
use eternal_blue.Prelude.Exec.Pure.{◌>>=◌}
use eternal_blue.Json.{JsonLib}

module _ ⦃json : JsonLib⦄ where
  -- A parse error is thrown again under the class's name.
  abbrev pub renamed : Bytes → Error → Error
  renamed class (json_error text) =
      runtime_error (class ++ (codes "::from_json: invalid JSON: " ++ text))
  renamed class e = e

  abbrev pub parsed_as : Bytes → Result json.Json → Result json.Json
  parsed_as class (ok j) = ok j
  parsed_as class (err e) = err (renamed class e)

  unfoldable pub parse_as : Bytes → Bytes → Result json.Json
  parse_as class s = parsed_as class (json.parse s)

  -- j.at(key).get<std::string>()
  unfoldable pub string_at : json.Json → Bytes → Result Bytes
  string_at j key = do v ← json.at j key; json.get_string v

  -- The loop over the required fields.
  unfoldable pub require_fields : Bytes → List Bytes → json.Json → Result (Unit {0})
  require_fields class [] j = ok tt
  require_fields class (field ∷ fields) j =
      let rest = require_fields class fields j in
      if json.contains j field
      then rest
      else err (
          runtime_error
            (class ++ (codes "::from_json: missing required field '" ++ (field ++ codes "'"))))

  pub require_fields-eq-ok :
      (class : Bytes) (fields : List Bytes) (j : json.Json)
      → require_fields class fields j ≡ ok tt
      → All (λ field. json.contains j field ≡ true) fields
  unfolding require_fields
  require_fields-eq-ok class [] j h = tt
  require_fields-eq-ok class (field ∷ fields) j h =
      let present : json.contains j field ≡ true = ground arith in
      let later : require_fields class fields j ≡ ok tt = ground arith in
      (present, require_fields-eq-ok class fields j later)

  parsed_as-eq-ok :
      (class : Bytes) (r : Result json.Json) (j : json.Json) → parsed_as class r ≡ ok j → r ≡ ok j
  parsed_as-eq-ok class (ok j') j h = h
  parsed_as-eq-ok class (err e) j h = cc

  pub parse_as-eq-ok :
      (class s : Bytes) (j : json.Json) → parse_as class s ≡ ok j → json.parse s ≡ ok j
  unfolding parse_as
  parse_as-eq-ok class s j h = parsed_as-eq-ok class (json.parse s) j h
