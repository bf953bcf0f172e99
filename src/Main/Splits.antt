-- ===== src/Main/Splits.antt =====
-- What the words of a line are.
use eternal_blue.Prelude.{
  ℕ, Bytes, false, not, List, [], ◌∷◌, ◌++◌, ◌≡◌, refl, ap, sym, ◌∙◌, All, keep, is_empty,
  append-nil, append_assoc, inl, inr, Bool-cases,
}
use eternal_blue.Prelude.Decimal.{is_space}
use eternal_blue.Main.Words.{push_back, split_from, split, join_words}

-- Bytes with no space among them.
abbrev pub IsSolid : Bytes → Type 0
IsSolid = All (λ c. is_space c ≡ false)

abbrev pub IsWord : Bytes → Type 0
IsWord w = (is_empty w ≡ false) × IsSolid w

abbrev pub concat : List Bytes → Bytes
concat [] = []
concat (w ∷ words) = w ++ concat words

IsSolid-snoc : (w : Bytes) (c : ℕ) → IsSolid w → is_space c ≡ false → IsSolid (w ++ c ∷ [])
IsSolid-snoc [] c h e = (e, tt)
IsSolid-snoc (d ∷ w) c h e = (h.0, IsSolid-snoc w c h.1 e)

push_back-AreWords :
    (w : Bytes) (out : List Bytes) → IsSolid w → All IsWord out → All IsWord (push_back w out)
push_back-AreWords [] out h k = k
push_back-AreWords (c ∷ w) out h k = ((refl, h), k)

concat-push_back : (w : Bytes) (out : List Bytes) → concat (push_back w out) ≡ w ++ concat out
concat-push_back [] out = refl
concat-push_back (c ∷ w) out = refl

split_from-AreWords : (w line : Bytes) → IsSolid w → All IsWord (split_from w line)
unfolding split_from
split_from-AreWords w [] h = push_back-AreWords w [] h tt
split_from-AreWords w (c ∷ line) h = elim (Bool-cases (is_space c)) [
  | inl space ↦ rw space (push_back-AreWords w _ h (split_from-AreWords [] line tt))
  | inr solid ↦ rw solid (split_from-AreWords (w ++ c ∷ []) line (IsSolid-snoc w c h solid))
]

abbrev pub without_spaces : Bytes → Bytes
without_spaces = keep λ c. not (is_space c)

concat-split_from : (w line : Bytes) → concat (split_from w line) ≡ w ++ without_spaces line
unfolding split_from
concat-split_from w [] = concat-push_back w []
concat-split_from w (c ∷ line) = elim (Bool-cases (is_space c)) [
  | inl space ↦
      rw space (concat-push_back w (split_from [] line) ∙ ap (w ++◌) (concat-split_from [] line))
  | inr solid ↦
      rw solid
        (concat-split_from (w ++ c ∷ []) line ∙ append_assoc w (c ∷ []) (without_spaces line))
]

-- The words of a line are not empty and have no spaces in them, and together they are the line without
-- its spaces.
pub split_lem :
    (line : Bytes) → All IsWord (split line) × (concat (split line) ≡ without_spaces line)
unfolding split
split_lem line = (split_from-AreWords [] line tt, concat-split_from [] line)

split_from-solid :
    (w v rest : Bytes) → IsSolid v → split_from w (v ++ rest) ≡ split_from (w ++ v) rest
unfolding split_from
split_from-solid w [] rest h = rw append-nil refl
split_from-solid w (c ∷ v) rest h = rw h.0 (
    split_from-solid (w ++ c ∷ []) v rest h.1
    ∙ ap (λ u. split_from u rest) (append_assoc w (c ∷ []) v))

push_back-word : (w : Bytes) (out : List Bytes) → IsWord w → push_back w out ≡ w ∷ out
push_back-word [] out h = cc
push_back-word (c ∷ w) out h = refl

-- Words that are put together with spaces are found again.
pub split-join_words : (words : List Bytes) → All IsWord words → split (join_words words) ≡ words
unfolding split split_from join_words
split-join_words [] h = refl
split-join_words (w ∷ []) h =
    ap split (sym (append-nil w)) ∙ split_from-solid [] w [] h.0.1 ∙ push_back-word w [] h.0
split-join_words (w ∷ v ∷ words) h =
    split_from-solid [] w (32 ∷ join_words (v ∷ words)) h.0.1
    ∙ push_back-word w _ h.0
    ∙ ap (w ∷◌) (split-join_words (v ∷ words) h.1)
