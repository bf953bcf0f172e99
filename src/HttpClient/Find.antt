-- ===== src/HttpClient/Find.antt =====
-- Where std::string::find stops in a text of header lines.
use eternal_blue.Prelude.{
  ℕ, suc, ◌+◌, Bytes, ◌==◌, ℕ-tested, Bool, true, not, ◌<◌, some, List, [], ◌∷◌, ◌++◌, ◌&&◌, ◌≡◌,
  ◌≢◌, refl, length, drop, drop_past, All, arith, length-append,
}
use eternal_blue.Prelude.Decimal.{IsDigits}
use eternal_blue.HttpClient.Defs.{crlf, blank_line, find}

-- A text without the byte c.
abbrev pub Without : ℕ → Bytes → Type 0
Without c = All (λ d. d ≢ c)

abbrev lacks : ℕ → Bytes → Bool
lacks c [] = true
lacks c (d ∷ s) = not (d == c) && lacks c s

-- For a literal, by running the test.
pub lacks-Without : (c : ℕ) (s : Bytes) → lacks c s ≡ true → Without c s
lacks-Without c [] h = tt
lacks-Without c (d ∷ s) h =
    let other : d ≢ c = ground arith in
    let later : lacks c s ≡ true = ground arith in (other, lacks-Without c s later)

pub Without-append : (c : ℕ) (a b : Bytes) → Without c a → Without c b → Without c (a ++ b)
Without-append c [] b h k = k
Without-append c (d ∷ a) b h k = (h.0, Without-append c a b h.1 k)

pub IsDigits-Without : (c : ℕ) → c < 48 → (s : Bytes) → IsDigits s → Without c s
IsDigits-Without c h [] digits = tt
IsDigits-Without c h (d ∷ s) digits =
    let other : d ≢ c = ground arith in (other, IsDigits-Without c h s digits.1)

-- A line of a header: not empty, and without a carriage return.
abbrev pub IsHeaderLine : Bytes → Type 0
IsHeaderLine line = Without 13 line × (line ≢ [])

-- Lines that each follow a line break, in front of a tail.
abbrev pub header_block : List Bytes → Bytes → Bytes
header_block [] tail = tail
header_block (line ∷ lines) tail = crlf ++ (line ++ header_block lines tail)

pub find_byte : (c : ℕ) (a b : Bytes) → Without c a → find (c ∷ []) (a ++ c ∷ b) ≡ some (length a)
unfolding find
find_byte c [] b h = ground arith
find_byte c (d ∷ a) b h = ground (arith, find_byte c a b h.1)

find_skip :
    (a b : Bytes) (i : ℕ)
    → Without 13 a
    → find blank_line b ≡ some i
    → find blank_line (a ++ b) ≡ some (length a + i)
unfolding find
find_skip [] b i h e = ground (arith, e)
find_skip (c ∷ a) b i h e = ground (arith, find_skip a b i h.1 e)

find-header_block :
    (lines : List Bytes) (body : Bytes)
    → All IsHeaderLine lines
    → find blank_line (header_block lines (blank_line ++ body))
      ≡ some (length (header_block lines []))
unfolding find
find-header_block [] body h = refl
find-header_block ([] ∷ lines) body h = absurd (h.0.1 refl)
find-header_block ((c ∷ line) ∷ lines) body h =
    let tail = header_block lines (blank_line ++ body) in
    ground (
      arith,
      find_skip line tail (length (header_block lines [])) h.0.0.1
          (find-header_block lines body h.1),
      length-append line (header_block lines []),
    )

-- Behind a first line and header lines, the blank line is found.
pub find-blank_line :
    (first : Bytes) (lines : List Bytes) (body : Bytes)
    → Without 13 first
    → All IsHeaderLine lines
    → find blank_line (first ++ header_block lines (blank_line ++ body))
      ≡ some (length first + length (header_block lines []))
find-blank_line first lines body h k =
    find_skip first (header_block lines (blank_line ++ body)) (length (header_block lines [])) h
      (find-header_block lines body k)

-- What stands behind the blank line.
pub drop-header_block :
    (lines : List Bytes) (tail : Bytes) (n : ℕ)
    → drop (length (header_block lines []) + n) (header_block lines tail) ≡ drop n tail
drop-header_block [] tail n = ground arith
drop-header_block (line ∷ lines) tail n =
    let e : length (header_block (line ∷ lines) []) + n
        ≡ suc (suc (length line + (length (header_block lines []) + n))) =
      omega (arith, length-append line (header_block lines [])) in
    rw e (rw drop_past (drop-header_block lines tail n))
