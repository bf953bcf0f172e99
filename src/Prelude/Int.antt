-- ===== src/Prelude/Int.antt =====
-- `long long` values: signed integers over the native numbers. `negsuc n` is -(n + 1).
use Prim.Native.Nat.{ℕ}
use mathlib.Core.Path.{◌≡◌}
use mathlib.Core.Bool.{Bool, true, false}
use native.Mathlib.Omega.{arith}
use eternal_blue.Prelude.Tests.{ltb, leb}

pub data ℤ : Type 0 where
  pos : ℕ → ℤ
  negsuc : ℕ → ℤ

-- a < b
abbrev pub ltz : ℤ → ℤ → Bool
ltz (pos a) (pos b) = ltb a b
ltz (pos a) (negsuc b) = false
ltz (negsuc a) (pos b) = true
ltz (negsuc a) (negsuc b) = ltb b a

-- a ≤ b
abbrev pub lez : ℤ → ℤ → Bool
lez (pos a) (pos b) = leb a b
lez (pos a) (negsuc b) = false
lez (negsuc a) (pos b) = true
lez (negsuc a) (negsuc b) = leb b a

pub lez_refl : (a : ℤ) → lez a a ≡ true
lez_refl a = ground arith

pub lez_trans : (a b c : ℤ) → lez a b ≡ true → lez b c ≡ true → lez a c ≡ true
lez_trans a b c p q = ground arith

pub lez_total : (a b : ℤ) → lez a b ≡ false → lez b a ≡ true
lez_total a b h = ground arith

pub ltz-lez : (a b : ℤ) → ltz a b ≡ false → lez b a ≡ true
ltz-lez a b h = ground arith
