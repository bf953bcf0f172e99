-- ===== src/Main/Words.antt =====
-- The words of a line, and a text put together from words.
use eternal_blue.Prelude.{Bytes, List, [], ◌∷◌, ◌++◌, if◌then◌else◌}
use eternal_blue.Prelude.Decimal.{is_space}

-- A word, unless it is empty, in front of the words behind it.
abbrev pub push_back : Bytes → List Bytes → List Bytes
push_back [] out = out
push_back (c ∷ w) out = (c ∷ w) ∷ out

-- `iss >> w` until the end of the line, with the word that has been read so far.
unfoldable pub split_from : Bytes → Bytes → List Bytes
split_from w [] = push_back w []
split_from w (c ∷ line) =
    let rest = split_from [] line in
    let longer = split_from (w ++ c ∷ []) line in if is_space c then push_back w rest else longer

unfoldable pub split : Bytes → List Bytes
unfolding split_from
split line = split_from [] line

-- The words from the third on, with a space between two.
unfoldable pub join_words : List Bytes → Bytes
join_words [] = []
join_words (w ∷ []) = w
join_words (w ∷ v ∷ words) = w ++ 32 ∷ join_words (v ∷ words)
