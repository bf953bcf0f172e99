-- ===== src/User/Tests.antt =====
-- A response of the key service.
use eternal_blue.Prelude.{Bytes, bytes_beq, codes, [], ◌∷◌, ◌≡◌, refl, All, length, replicate, true}
use eternal_blue.Prelude.Int.{pos}
use eternal_blue.Prelude.Exec.{ok}
use eternal_blue.Sodium.Toy.{toy}
use eternal_blue.Json.{JsonLib}
use eternal_blue.Json.Doc.{Doc, string, integer, fields, field, no_fields, doc_lib}
use eternal_blue.Json.Fields.{parse_as, require_fields, string_at}
use eternal_blue.Base64.{from_base64url}
use eternal_blue.User.{User}
use eternal_blue.User.FromJson.{required, checked_user, user_fields, from_json, from_json_sound}

abbrev key : Bytes
key = replicate 32 9

-- Its encoding by the toy library.
abbrev encoded_key : Bytes
encoded_key = replicate 32 10

abbrev response : Doc
response = fields (
    field (codes "username") (string (codes "bob")) (
      field (codes "user_id") (string (codes "2")) (
        field (codes "public_key") (string encoded_key)
          (field (codes "key_version") (integer (pos 1)) no_fields))))

instance abbrev test_json : JsonLib
test_json = doc_lib ((codes "r", response) ∷ [])

abbrev bob : User
bob = record { user_id = codes "2"; username = codes "bob"; public_key = key; key_version = pos 1 }

read : from_json (codes "r") ≡ ok bob
unfolding from_json parse_as require_fields user_fields string_at from_base64url checked_user
    bytes_beq
read = refl

from_json_sound_example :
    (j : Doc) × (encoded : Bytes) × (test_json.parse (codes "r") ≡ ok j)
    × All (λ field. test_json.contains j field ≡ true) required
    × (string_at j (codes "username") ≡ ok (codes "bob"))
    × (string_at j (codes "user_id") ≡ ok (codes "2"))
    × (string_at j (codes "public_key") ≡ ok encoded)
    × (from_base64url encoded ≡ ok key)
    × (length key ≡ 32)
from_json_sound_example = from_json_sound (codes "r") bob read
