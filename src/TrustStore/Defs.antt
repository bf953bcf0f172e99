-- ===== src/TrustStore/Defs.antt =====
-- TrustStore::fingerprint and TrustStore::lookup_or_pin.
use eternal_blue.Prelude.{
  ℕ, ◌+◌, ◌/◌, ◌%◌, Bytes, codes, ◌==◌, not, ◌&&◌, Option, none, some, [], ◌∷◌, ◌++◌, if◌then◌else◌,
  Bytes-tested, ℕ-tested, length, get_or,
}
use eternal_blue.Prelude.Exec.{Exec, ◌>>=◌, ◌>>◌, pure, throw, key_changed_error}
use eternal_blue.Sodium.{Sodium}
use eternal_blue.User.{User}
use eternal_blue.LocalStore.{LocalStore, get_pin, save_pin}

abbrev pub hex : Bytes
hex = codes "0123456789abcdef"

unfoldable pub hex_digit : ℕ → ℕ
hex_digit d = get_or hex d 0

-- The loop body from index `i` on, over a digest of `size` bytes.
unfoldable pub fingerprint_loop : ℕ → ℕ → Bytes → Bytes
unfolding hex_digit
fingerprint_loop size i [] = []
fingerprint_loop size i (b ∷ h) =
    let rest = fingerprint_loop size (i + 1) h in
    hex_digit (b / 16 % 16)
    ∷ hex_digit (b % 16)
    ∷ (if (i + 1) % 2 == 0 && not (i + 1 == size) then b' ' ∷ rest else rest)

module _ ⦃sodium : Sodium⦄ where
  unfoldable pub fingerprint : Bytes → Bytes
  unfolding fingerprint_loop
  fingerprint pk = let h = sodium.sha256 pk in fingerprint_loop (length h) 0 h

  -- The text of KeyChangedError.
  unfoldable pub key_changed_text : Bytes → Bytes → Bytes → Bytes
  unfolding fingerprint
  key_changed_text username pinned received =
      codes "pinned key for '"
      ++ (username
          ++ (codes "' does not match the server's response. pinned: "
              ++ (fingerprint pinned ++ (codes "  ; received: " ++ fingerprint received))))

  unfoldable pub decide_pin : User → Option User → Exec LocalStore User
  decide_pin fetched none = do save_pin fetched; pure fetched
  decide_pin fetched (some existing) =
      if existing.public_key == fetched.public_key
      then pure existing
      else throw (
          key_changed_error
            (key_changed_text fetched.username existing.public_key fetched.public_key))

  unfoldable pub lookup_or_pin : User → Exec LocalStore User
  unfolding decide_pin
  lookup_or_pin fetched = do existing ← get_pin fetched.username; decide_pin fetched existing
