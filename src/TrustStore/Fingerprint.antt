-- ===== src/TrustStore/Fingerprint.antt =====
-- The printed fingerprint: its length, and that no two digests print alike.
use eternal_blue.Prelude.{
  ℕ, zero, suc, ◌+◌, ◌/◌, ◌%◌, ◌<◌, ◌*◌, ◌-◌, Bytes, Bool, true, ◌&&◌, [], ◌∷◌, ◌≡◌, refl, ap, ltb,
  if◌then◌else◌, ℕ-tested, nat_beq, length, arith, All, nat_beq_iff,
}
use eternal_blue.Sodium.{Sodium}
use eternal_blue.TrustStore.Defs.{hex_digit, fingerprint_loop, fingerprint}

-- A test that holds at 0, …, bound - 1.
holds_to : (ℕ → Bool) → ℕ → Bool
holds_to test zero = true
holds_to test (suc bound) = holds_to test bound && test bound

holds_at : (test : ℕ → Bool) (bound d : ℕ) → d < bound → holds_to test bound ≡ true → test d ≡ true
unfolding holds_to
holds_at test zero d below all = absurd (omega arith)
holds_at test (suc bound) d below all = ground (arith, holds_at test bound d)

-- The value of a hexadecimal digit.
abbrev hex_value : ℕ → ℕ
hex_value c = if ltb c 58 then c - 48 else c - 87

digits_read_back : holds_to (λ d. nat_beq (hex_value (hex_digit d)) d) 16 ≡ true
unfolding holds_to hex_digit
digits_read_back = refl

hex_value-hex_digit : (d : ℕ) → d < 16 → hex_value (hex_digit d) ≡ d
hex_value-hex_digit d below = (nat_beq_iff _ d).0 (holds_at _ 16 d below digits_read_back)

hex_digit_inj : (a b : ℕ) → a < 16 → b < 16 → hex_digit a ≡ hex_digit b → a ≡ b
hex_digit_inj a b ha hb e = cc (hex_value-hex_digit a ha, hex_value-hex_digit b hb, ap hex_value e)

byte_inj :
    (a b : ℕ)
    → a < 256
    → b < 256
    → hex_digit (a / 16 % 16) ≡ hex_digit (b / 16 % 16)
    → hex_digit (a % 16) ≡ hex_digit (b % 16)
    → a ≡ b
byte_inj a b ha hb hi lo = omega (
  arith,
  hex_digit_inj (a / 16 % 16) (b / 16 % 16) (omega arith) (omega arith) hi,
  hex_digit_inj (a % 16) (b % 16) (omega arith) (omega arith) lo,
)

fingerprint_loop_inj :
    (size i : ℕ) (g h : Bytes)
    → length g ≡ length h
    → All (λ c. c < 256) g
    → All (λ c. c < 256) h
    → fingerprint_loop size i g ≡ fingerprint_loop size i h
    → g ≡ h
unfolding fingerprint_loop
fingerprint_loop_inj size i [] [] l bg bh e = refl
fingerprint_loop_inj size i [] (b ∷ h) l bg bh e = absurd (omega arith)
fingerprint_loop_inj size i (a ∷ g) [] l bg bh e = absurd (omega arith)
fingerprint_loop_inj size i (a ∷ g) (b ∷ h) l bg bh e =
    ground (arith, byte_inj a b, fingerprint_loop_inj size (i + 1) g h)

-- Two digits for each byte, and one space behind every second byte but the last.
length-fingerprint_loop :
    (size i b : ℕ) (h : Bytes)
    → i + suc (length h) ≡ size
    → length (fingerprint_loop size i (b ∷ h)) + i / 2 ≡ 2 * suc (length h) + (size - 1) / 2
unfolding fingerprint_loop
length-fingerprint_loop size i b [] e = ground arith
length-fingerprint_loop size i b (c ∷ h) e =
    ground (arith, length-fingerprint_loop size (i + 1) c h (omega arith))

length-fingerprint_loop_32 :
    (h : Bytes) → length h ≡ 32 → length (fingerprint_loop (length h) 0 h) ≡ 79
length-fingerprint_loop_32 [] e = absurd (omega arith)
length-fingerprint_loop_32 (b ∷ h) e =
    omega (arith, length-fingerprint_loop (suc (length h)) 0 b h (omega arith))

module _ ⦃sodium : Sodium⦄ where
  -- A fingerprint is 79 characters long: 64 digits and 15 spaces.
  pub length-fingerprint : (pk : Bytes) → length (fingerprint pk) ≡ 79
  unfolding fingerprint
  length-fingerprint pk = length-fingerprint_loop_32 (sodium.sha256 pk) (sodium.sha256_length pk)

  -- Two keys have the same fingerprint only if they have the same digest.
  pub fingerprint_inj :
      (pk pk' : Bytes) → fingerprint pk ≡ fingerprint pk' → sodium.sha256 pk ≡ sodium.sha256 pk'
  unfolding fingerprint
  fingerprint_inj pk pk' e =
      fingerprint_loop_inj 32 0 _ _
        (omega (arith, sodium.sha256_length pk, sodium.sha256_length pk')) (sodium.sha256_bytes pk)
        (sodium.sha256_bytes pk') (rw (sodium.sha256_length pk, sodium.sha256_length pk') at e)
