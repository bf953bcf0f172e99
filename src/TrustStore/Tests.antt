-- ===== src/TrustStore/Tests.antt =====
-- Runs of the trust store, and the theorems on it at concrete inputs.
use eternal_blue.Prelude.{
  ℕ, Bytes, codes, [], ◌∷◌, ◌≡◌, refl, bytes_beq, replicate, Bytes-tested, ℕ-tested,
}
use eternal_blue.Prelude.Int.{pos}
use eternal_blue.Prelude.Exec.{ok}
use eternal_blue.User.{User}
use eternal_blue.Sodium.Toy.{toy}
use eternal_blue.LocalStore.{LocalStore, opened, get_pin, save_pin}
use eternal_blue.TrustStore.Defs.{fingerprint, fingerprint_loop, lookup_or_pin}
use eternal_blue.TrustStore.Tofu.{one_key_per_name}
use eternal_blue.TrustStore.Fingerprint.{fingerprint_inj}

abbrev user : Bytes → ℕ → User
user name k = record {
  user_id = codes "id";
  username = name;
  public_key = replicate 32 k;
  key_version = pos 1;
}

abbrev bob : User
bob = user (codes "bob") 7

abbrev impostor : User
impostor = user (codes "bob") 8

abbrev pinned : LocalStore
pinned = record opened { pinned_keys = bob ∷ [] }

first_contact : lookup_or_pin bob opened ≡ (ok bob, pinned)
unfolding lookup_or_pin get_pin save_pin
first_contact = refl

fingerprint_start : fingerprint_loop 4 0 (0x2c ∷ 0xf2 ∷ 0x4d ∷ 0xba ∷ []) ≡ codes "2cf2 4dba"
unfolding fingerprint_loop
fingerprint_start = refl

one_key_per_name_example : bob.public_key ≡ bob.public_key
unfolding lookup_or_pin get_pin save_pin bytes_beq
one_key_per_name_example =
    one_key_per_name bob bob bob bob (impostor ∷ user (codes "carol") 9 ∷ []) opened refl refl refl

fingerprint_inj_example : toy.sha256 (replicate 32 7) ≡ toy.sha256 (replicate 32 9)
unfolding fingerprint fingerprint_loop
fingerprint_inj_example = fingerprint_inj (replicate 32 7) (replicate 32 9) refl
