-- ===== src/Base64.antt =====
-- cpp_client/src/Base64.cpp.
use eternal_blue.Prelude.{Bytes, codes, c_text, none, some, ◌≡◌, refl}
use eternal_blue.Prelude.Exec.{Result, ok, err, runtime_error}
use eternal_blue.Sodium.{Sodium, Base64Laws}

module _ ⦃sodium : Sodium⦄ where
  -- Trimmed at the NUL that ends the encoded text.
  unfoldable pub to_base64url : Bytes → Bytes
  unfolding c_text
  to_base64url bytes = c_text (sodium.bin2base64 bytes)

  unfoldable pub from_base64url : Bytes → Result Bytes
  from_base64url text = elim (sodium.base642bin text) [
    | none ↦ err (runtime_error (codes "from_base64url: invalid base64url input"))
    | some bytes ↦ ok bytes
  ]

  pub from_base64url-to_base64url :
      Base64Laws sodium → (bytes : Bytes) → from_base64url (to_base64url bytes) ≡ ok bytes
  unfolding from_base64url to_base64url
  from_base64url-to_base64url laws bytes = rw (laws.decode bytes, from_base64url) refl
