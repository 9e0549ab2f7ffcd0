-- ===== src/Shim/Keyword.antt =====
-- `keyword` and `limit_value` of shim/src/api.rs. What is left of the text stands for the index.
pub mod Ends
use sqlite_broker.Prelude.{
  ℕ, zero, suc, ◌==◌, leb, ◌||◌, ◌&&◌, ℤ, pos, Bool, true, false, if◌then◌else◌, List, [], ◌∷◌,
  Option, none, some, length, is_empty, bytes_eq,
}
use sqlite_broker.Text.{Bytes, codes}
use sqlite_broker.Text.Search.{to_ascii_uppercase}

abbrev pub is_blank : ℕ → Bool
is_blank b = b == b' ' || (b == 9 || (b == 10 || (b == 13 || b == 12)))

-- `u8::is_ascii_alphabetic`
abbrev pub is_alphabetic : ℕ → Bool
is_alphabetic b = (leb b'A' b && leb b b'Z') || (leb b'a' b && leb b b'z')

-- Up to the end of the line.
unfoldable pub skip_line : Bytes → Bytes
skip_line [] = []
skip_line (b ∷ bs) = let rest = skip_line bs in if b == 10 then b ∷ bs else rest

-- Past the end of the comment.
unfoldable pub skip_block : Bytes → Bytes
skip_block [] = []
skip_block (a ∷ []) = []
skip_block (a ∷ b ∷ bs) =
    let rest = skip_block (b ∷ bs) in if a == b'*' && b == b'/' then bs else rest

unfoldable pub letters : Bytes → Bytes
letters [] = []
letters (b ∷ bs) = let rest = letters bs in if is_alphabetic b then b ∷ rest else []

-- Does the text go on with this byte?
abbrev pub goes_on : ℕ → Bytes → Bool
goes_on c [] = false
goes_on c (b ∷ bs) = b == c

abbrev pub behind : Bytes → Bytes
behind [] = []
behind (b ∷ bs) = bs

-- One round of the outer loop.
pub data Round : Type 0 where
  skipped : (rest : Bytes) → Round
  found : (word : Bytes) → Round
  nothing : Round

unfoldable pub word_round : Bytes → Round
unfolding letters
word_round text =
    let word = letters text in if is_empty word then nothing else found (to_ascii_uppercase word)

unfoldable pub round : Bytes → Round
unfolding skip_line skip_block word_round
round [] = nothing
round (b ∷ bs) =
    if is_blank b
    then skipped bs
    else if b == b'-' && goes_on b'-' bs
    then skipped (skip_line (behind bs))
    else if b == b'/' && goes_on b'*' bs
    then skipped (skip_block (behind bs))
    else word_round (b ∷ bs)

-- `none` where the rounds are used up, `some none` where there is no keyword.
unfoldable pub keyword_loop : ℕ → Bytes → Option (Option Bytes)
unfolding round
keyword_loop zero text = none
keyword_loop (suc rounds) text = elim (round text) [
  | skipped rest ↦ keyword_loop rounds rest
  | found word ↦ some (some word)
  | nothing ↦ some none
]

abbrev pub answer_of {ℓ} : {A : Type ℓ} → Option (Option A) → Option A
answer_of none = none
answer_of (some answer) = answer

-- Every round but the last takes a byte at least, so a round more than there are bytes is enough.
unfoldable pub keyword : Bytes → Option Bytes
unfolding keyword_loop
keyword sql = answer_of (keyword_loop (suc (length sql)) sql)

abbrev pub is_reading : Option Bytes → Bool
is_reading none = false
is_reading (some word) =
    bytes_eq word (codes "SELECT")
    || (bytes_eq word (codes "EXPLAIN")
        || (bytes_eq word (codes "PRAGMA") || bytes_eq word (codes "VALUES")))

abbrev pub other_limit : ℕ
other_limit = 1000000

unfoldable pub limit_value : ℤ → ℕ
limit_value (pos id) =
    if id == 0 || id == 1
    then 1000000000
    else if id == 2
    then 2000
    else if id == 3 || id == 10
    then 1000
    else if id == 4
    then 500
    else if id == 5
    then 25000
    else if id == 6
    then 100
    else if id == 7
    then 10
    else if id == 8
    then 50000
    else if id == 9
    then 32766
    else other_limit
limit_value id = other_limit
