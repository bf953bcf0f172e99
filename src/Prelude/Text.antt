-- ===== src/Prelude/Text.antt =====
-- std::string and byte vectors as lists of byte values, with equality tests as instances.
use Prim.Native.Nat.{ℕ, ◌<◌}
use Prim.Native.Char.{code}
use Prim.Native.String.{String}
use mathlib.Core.Path.{◌≡◌, refl}
use mathlib.Core.Logic.{◌↔◌}
use mathlib.Core.Bool.{Bool, true, false, not, ◌&&◌}
use mathlib.Core.List.{List, [], ◌∷◌}
use native.Mathlib.Omega.{arith}
use eternal_blue.Prelude.Tests.{nat_beq, nat_beq_iff, if◌then◌else◌}
use eternal_blue.Prelude.Lists.{All}

abbrev pub Bytes : Type 0
Bytes = List ℕ

-- The bytes of an ASCII literal.
abbrev pub codes : String → Bytes
codes String.[] = []
codes (String.◌∷◌ c s) = code c ∷ codes s

-- A type whose values the code compares with `==`, and what the comparison means.
pub record Tested {ℓ} (A : Type ℓ) : Type ℓ where
  pub test : A → A → Bool
  pub decides : (x y : A) → (test x y ≡ true) ↔ (x ≡ y)

abbrev pub ◌==◌ {ℓ} : {A : Type ℓ} ⦃tested : Tested A⦄ → A → A → Bool
◌==◌ ⦃tested⦄ x y = tested.test x y

infix 50 ◌==◌
instance abbrev pub ℕ-tested : Tested ℕ
ℕ-tested = record { test = nat_beq; decides = nat_beq_iff }

unfoldable pub bool_beq : Bool → Bool → Bool
bool_beq true b = b
bool_beq false b = not b

pub bool_beq_iff : (a b : Bool) → (bool_beq a b ≡ true) ↔ (a ≡ b)
unfolding bool_beq
bool_beq_iff a b = ground arith

instance abbrev pub Bool-tested : Tested Bool
Bool-tested = record { test = bool_beq; decides = bool_beq_iff }

unfoldable pub bytes_beq : Bytes → Bytes → Bool
bytes_beq [] [] = true
bytes_beq (x ∷ a) (y ∷ b) = nat_beq x y && bytes_beq a b
bytes_beq _ _ = false

pub bytes_beq_iff : (a b : Bytes) → (bytes_beq a b ≡ true) ↔ (a ≡ b)
unfolding bytes_beq
bytes_beq_iff (x ∷ a) (y ∷ b) = ground (arith, bytes_beq_iff a b)
bytes_beq_iff _ _ = ground arith

pub bytes_beq_refl : (a : Bytes) → bytes_beq a a ≡ true
bytes_beq_refl a = (bytes_beq_iff a a).1 refl

instance abbrev pub Bytes-tested : Tested Bytes
Bytes-tested = record { test = bytes_beq; decides = bytes_beq_iff }

-- std::string::empty and std::vector::empty
abbrev pub is_empty {ℓ} : {A : Type ℓ} → List A → Bool
is_empty [] = true
is_empty (x ∷ xs) = false

-- A std::string that a C interface reads by `c_str()` ends at its first NUL.
unfoldable pub c_text : Bytes → Bytes
c_text [] = []
c_text (c ∷ s) = if c == 0 then [] else c ∷ c_text s

-- A text with no NUL byte in it.
abbrev pub IsText : Bytes → Type 0
IsText = All (λ c. 0 < c)

pub c_text-IsText : (s : Bytes) → IsText s → c_text s ≡ s
unfolding c_text
c_text-IsText [] h = refl
c_text-IsText (c ∷ s) h = ground (arith, c_text-IsText s h.1)

pub c_text-c_text : (s : Bytes) → c_text (c_text s) ≡ c_text s
unfolding c_text
c_text-c_text [] = refl
c_text-c_text (c ∷ s) = ground (arith, c_text-c_text s)
