-- ===== src/Prelude/Decimal.antt =====
-- std::to_string and std::stoi on lists of bytes.
use Prim.Native.Nat.{ℕ, zero, suc, ◌+◌, ◌-◌, ◌*◌, ◌/◌, ◌%◌, ◌<◌, ◌^◌}
use mathlib.Core.Path.{◌≡◌}
use mathlib.Core.Logic.{inl, inr}
use mathlib.Core.Bool.{Bool, true, false, ◌&&◌, ◌||◌}
use mathlib.Core.List.{[], ◌∷◌}
use native.Mathlib.Omega.{arith}
use eternal_blue.Prelude.Tests.{ltb, leb, nat_beq, if◌then◌else◌, Bool-cases, lt→ltb}
use eternal_blue.Prelude.Lists.{All}
use eternal_blue.Prelude.Text.{Bytes}
use eternal_blue.Prelude.Int.{ℤ, pos, negsuc}
use eternal_blue.Prelude.Exec.Pure.{Result, ok, err, invalid_argument, out_of_range}

-- The digits of n in front of `tail`. A number has fewer digits than n + 1, which is the fuel.
unfoldable pub digits_onto : ℕ → ℕ → Bytes → Bytes
digits_onto zero n tail = tail
digits_onto (suc fuel) n tail =
    let rest = digits_onto fuel (n / 10) ((48 + n % 10) ∷ tail) in
    if ltb n 10 then (48 + n % 10) ∷ tail else rest

unfoldable pub to_string : ℕ → Bytes
unfolding digits_onto
to_string n = digits_onto (suc n) n []

unfoldable pub to_string_signed : ℤ → Bytes
unfolding to_string
to_string_signed (pos n) = to_string n
to_string_signed (negsuc n) = b'-' ∷ to_string (suc n)

abbrev pub is_digit : ℕ → Bool
is_digit c = leb 48 c && leb c 57

-- isspace in the C locale.
abbrev pub is_space : ℕ → Bool
is_space c = nat_beq c 32 || (leb 9 c && leb c 13)

-- The value of the leading digits, from `acc` on.
unfoldable pub read_digits : ℕ → Bytes → ℕ
read_digits acc [] = acc
read_digits acc (c ∷ s) =
    let rest = read_digits (acc * 10 + (c - 48)) s in if is_digit c then rest else acc

abbrev starts_digit : Bytes → Bool
starts_digit [] = false
starts_digit (c ∷ s) = is_digit c

unfoldable pub skip_spaces : Bytes → Bytes
skip_spaces [] = []
skip_spaces (c ∷ s) = let rest = skip_spaces s in if is_space c then rest else c ∷ s

abbrev in_range : ℤ → Result ℤ
in_range (pos n) = if ltb n (2 ^ 31) then ok (pos n) else err out_of_range
in_range (negsuc n) = if ltb n (2 ^ 31) then ok (negsuc n) else err out_of_range

-- - n
abbrev negate : ℕ → ℤ
negate zero = pos 0
negate (suc n) = negsuc n

-- What follows the sign.
abbrev magnitude : (ℕ → ℤ) → Bytes → Result ℤ
magnitude sign s =
    if starts_digit s then in_range (sign (read_digits 0 s)) else err invalid_argument

abbrev signed : Bytes → Result ℤ
signed [] = err invalid_argument
signed (c ∷ s) =
    if nat_beq c b'-'
    then magnitude negate s
    else if nat_beq c b'+'
    then magnitude pos s
    else magnitude pos (c ∷ s)

-- Spaces, a sign, digits, and anything behind them, into a 32-bit int.
unfoldable pub stoi : Bytes → Result ℤ
unfolding skip_spaces read_digits
stoi s = signed (skip_spaces s)

abbrev pub IsDigits : Bytes → Type 0
IsDigits = All (λ c. is_digit c ≡ true)

digits_onto-IsDigits :
    (fuel n : ℕ) (tail : Bytes) → IsDigits tail → IsDigits (digits_onto fuel n tail)
unfolding digits_onto
digits_onto-IsDigits zero n tail h = h
digits_onto-IsDigits (suc fuel) n tail h =
    ground (arith, digits_onto-IsDigits fuel (n / 10) ((48 + n % 10) ∷ tail))

pub to_string-IsDigits : (n : ℕ) → IsDigits (to_string n)
unfolding to_string
to_string-IsDigits n = digits_onto-IsDigits (suc n) n [] tt

read_digits-digit :
    (acc n : ℕ) (tail : Bytes)
    → read_digits acc ((48 + n % 10) ∷ tail) ≡ read_digits (acc * 10 + n % 10) tail
unfolding read_digits
read_digits-digit acc n tail = ground arith

-- Reading back, whatever follows.
read_digits-digits_onto :
    (fuel n : ℕ) (tail : Bytes)
    → n < fuel
    → read_digits 0 (digits_onto fuel n tail) ≡ read_digits n tail
unfolding digits_onto
read_digits-digits_onto zero n tail h = absurd (omega arith)
read_digits-digits_onto (suc fuel) n tail h =
    let one_digit : (ltb n 10 ≡ true) → 0 * 10 + n % 10 ≡ n = λ small. ground arith in
    let again : n / 10 * 10 + n % 10 ≡ n = omega arith in
    elim (Bool-cases (ltb n 10)) [
      | inl small ↦ rw (small, read_digits-digit, one_digit small)
      | inr big ↦ rw (
        big,
        read_digits-digits_onto fuel (n / 10) ((48 + n % 10) ∷ tail) (ground arith),
        read_digits-digit,
        again,
      )
    ]

starts_digit-digits_onto :
    (fuel n : ℕ) (tail : Bytes) → n < fuel → starts_digit (digits_onto fuel n tail) ≡ true
unfolding digits_onto
starts_digit-digits_onto zero n tail h = absurd (omega arith)
starts_digit-digits_onto (suc fuel) n tail h = elim (Bool-cases (ltb n 10)) [
  | inl small ↦ ground arith
  | inr big ↦ rw (big, starts_digit-digits_onto fuel (n / 10) ((48 + n % 10) ∷ tail) (ground arith))
]

-- A text that starts with a digit has no spaces to skip and no sign.
stoi-digit : (s : Bytes) → starts_digit s ≡ true → stoi s ≡ in_range (pos (read_digits 0 s))
unfolding stoi skip_spaces
stoi-digit [] h = cc
stoi-digit (c ∷ s) h = ground arith

pub stoi-to_string : (n : ℕ) → n < 2 ^ 31 → stoi (to_string n) ≡ ok (pos n)
unfolding to_string read_digits
stoi-to_string n small = rw (
  stoi-digit (digits_onto (suc n) n []) (starts_digit-digits_onto (suc n) n [] (omega arith)),
  read_digits-digits_onto (suc n) n [] (omega arith),
  lt→ltb n (2 ^ 31) small,
)
