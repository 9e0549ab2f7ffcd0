-- ===== src/Text/Space.antt =====
-- `char::is_whitespace`, `split_whitespace` and `trim` on UTF-8 bytes.
pub mod Laws
use sqlite_broker.Prelude.{
  ℕ, zero, suc, List, [], ◌∷◌, ◌++◌, Bool, true, false, ◌&&◌, ◌||◌, ◌==◌, leb, if◌then◌else◌,
}

unfoldable pub is_ascii_space : ℕ → Bool
is_ascii_space b = (leb 9 b && leb b 13) || (b == 32)

-- The three-byte members of White_Space: U+1680, U+2000 to U+200A, U+2028, U+2029, U+202F, U+205F
-- and U+3000.
unfoldable pub is_wide_space : ℕ → ℕ → ℕ → Bool
is_wide_space a b c =
    ((a == 0xe1) && ((b == 0x9a) && (c == 0x80)))
    || (((a == 0xe2)
          && ((b == 0x80)
              && ((leb 0x80 c && leb c 0x8a) || ((c == 0xa8) || ((c == 0xa9) || (c == 0xaf))))))
        || (((a == 0xe2) && ((b == 0x81) && (c == 0x9f)))
            || ((a == 0xe3) && ((b == 0x80) && (c == 0x80)))))

-- How many bytes the white-space character at the front takes; 0 if there is none.
unfoldable pub space_len : List ℕ → ℕ
space_len [] = 0
space_len (a ∷ []) = if is_ascii_space a then 1 else 0
space_len (a ∷ b ∷ []) =
    if is_ascii_space a then 1 else if (a == 0xc2) && ((b == 0x85) || (b == 0xa0)) then 2 else 0
space_len (a ∷ b ∷ c ∷ rest) =
    if is_ascii_space a
    then 1
    else if (a == 0xc2) && ((b == 0x85) || (b == 0xa0))
    then 2
    else if is_wide_space a b c
    then 3
    else 0

abbrev pub emit : List ℕ → List (List ℕ) → List (List ℕ)
emit [] ws = ws
emit (c ∷ cs) ws = (c ∷ cs) ∷ ws

-- `skip` bytes of a space character are still to be passed over; `word` is what was read of a word.
unfoldable pub words : ℕ → List ℕ → List ℕ → List (List ℕ)
words skip word [] = emit word []
words (suc k) word (b ∷ bs) = words k word bs
words zero word (b ∷ bs) = elim (space_len (b ∷ bs)) [
  | zero ↦ words zero (word ++ (b ∷ [])) bs
  | suc k ↦ emit word (words k [] bs)
]

unfoldable pub split_whitespace : List ℕ → List (List ℕ)
unfolding words
split_whitespace text = words 0 [] text

-- `trim_start`: `skip` as above.
unfoldable pub trim_front : ℕ → List ℕ → List ℕ
trim_front skip [] = []
trim_front (suc k) (b ∷ bs) = trim_front k bs
trim_front zero (b ∷ bs) = elim (space_len (b ∷ bs)) [ zero ↦ b ∷ bs | suc k ↦ trim_front k bs ]

-- The bytes up to the end of the last character that is no space: `kept` ends there, and `gap` is
-- what was read since.
unfoldable pub trim_back : ℕ → List ℕ → List ℕ → List ℕ → List ℕ
trim_back skip kept gap [] = kept
trim_back (suc k) kept gap (b ∷ bs) = trim_back k kept (gap ++ (b ∷ [])) bs
trim_back zero kept gap (b ∷ bs) = elim (space_len (b ∷ bs)) [
  | zero ↦ trim_back zero (kept ++ (gap ++ (b ∷ []))) [] bs
  | suc k ↦ trim_back k kept (gap ++ (b ∷ [])) bs
]

unfoldable pub trim : List ℕ → List ℕ
unfolding trim_front trim_back
trim text = trim_back 0 [] [] (trim_front 0 text)

abbrev pub not_zero : ℕ → Bool
not_zero zero = false
not_zero (suc k) = true

-- `contains(char::is_whitespace)`
unfoldable pub has_space : List ℕ → Bool
has_space [] = false
has_space (b ∷ bs) = not_zero (space_len (b ∷ bs)) || has_space bs
