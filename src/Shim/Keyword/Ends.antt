-- ===== src/Shim/Keyword/Ends.antt =====
-- The search for the keyword ends within a round more than the text has bytes.
use sqlite_broker.Prelude.{
  ℕ, zero, suc, ◌≤◌, ◌<◌, ◌≡◌, refl, sym, ap, ◌∙◌, arith, ◌==◌, ◌&&◌, [], ◌∷◌, Option, none, some,
  length, is_empty, if-both,
}
use sqlite_broker.Text.{Bytes}
use sqlite_broker.Text.Search.{to_ascii_uppercase}
use sqlite_broker.Shim.Keyword.{
  is_blank, skip_line, skip_block, goes_on, behind, letters, Round, skipped, found, nothing,
  word_round, round, keyword_loop, answer_of, keyword,
}

length-skip_line : (t : Bytes) → length (skip_line t) ≤ length t
unfolding skip_line
length-skip_line [] = omega arith
length-skip_line (b ∷ bs) = ground (arith, length-skip_line bs)

length-skip_block : (t : Bytes) → length (skip_block t) ≤ length t
unfolding skip_block
length-skip_block [] = omega arith
length-skip_block (a ∷ []) = omega arith
length-skip_block (a ∷ b ∷ bs) = ground (arith, length-skip_block (b ∷ bs))

length-behind : (t : Bytes) → length (behind t) ≤ length t
length-behind [] = omega arith
length-behind (b ∷ bs) = omega arith

-- What a round leaves is shorter.
abbrev Shrinks : ℕ → Round → Type 0
Shrinks n (skipped rest) = length rest < n
Shrinks n (found word) = Unit
Shrinks n nothing = Unit

word_round-Shrinks : (n : ℕ) (t : Bytes) → Shrinks n (word_round t)
unfolding word_round
word_round-Shrinks n t =
    if-both (Shrinks n) (is_empty (letters t)) {x = nothing}
      {y = found (to_ascii_uppercase (letters t))} (λ h. tt) (λ h. tt)

round-Shrinks : (t : Bytes) → Shrinks (length t) (round t)
unfolding round
round-Shrinks [] = tt
round-Shrinks (b ∷ bs) =
    let n = suc (length bs) in
    if-both (Shrinks n) (is_blank b) (λ blank. omega arith)
      (λ black.
        if-both (Shrinks n) ((b == b'-') && goes_on b'-' bs)
          (λ line. omega (arith, length-skip_line (behind bs), length-behind bs))
          (λ other.
            if-both (Shrinks n) ((b == b'/') && goes_on b'*' bs)
              (λ block. omega (arith, length-skip_block (behind bs), length-behind bs))
              (λ word. word_round-Shrinks n (b ∷ bs))))

abbrev next : (Bytes → Option (Option Bytes)) → Round → Option (Option Bytes)
next loop (skipped rest) = loop rest
next loop (found word) = some (some word)
next loop nothing = some none

keyword_loop-next :
    (rounds : ℕ) (t : Bytes) → keyword_loop (suc rounds) t ≡ next (keyword_loop rounds) (round t)
unfolding keyword_loop
keyword_loop-next rounds t = go (round t) refl
  where
    go :
        (r : Round)
        → round t ≡ r
        → keyword_loop (suc rounds) t ≡ next (keyword_loop rounds) (round t)
    go (skipped rest) e = rw (e, keyword_loop) refl
    go (found word) e = rw (e, keyword_loop) refl
    go nothing e = rw (e, keyword_loop) refl

-- The loops come to the same answer.
abbrev Agree : Option (Option Bytes) → Option (Option Bytes) → Type 0
Agree a b = (answer : Option Bytes) × (a ≡ some answer) × (b ≡ some answer)

next-Agree :
    (m n l : ℕ) (r : Round)
    → Shrinks l r
    → ((rest : Bytes) → length rest < l → Agree (keyword_loop m rest) (keyword_loop n rest))
    → Agree (next (keyword_loop m) r) (next (keyword_loop n) r)
next-Agree m n l (skipped rest) less same = same rest less
next-Agree m n l (found word) less same = (some word, refl, refl)
next-Agree m n l nothing less same = (none, refl, refl)

keyword_loop-Agree :
    (m n : ℕ) (t : Bytes)
    → length t < m
    → length t < n
    → Agree (keyword_loop m t) (keyword_loop n t)
keyword_loop-Agree zero n t h k = absurd (omega arith)
keyword_loop-Agree (suc m) zero t h k = absurd (omega arith)
keyword_loop-Agree (suc m) (suc n) t h k =
    let (answer, a, b) =
      next-Agree m n (length t) (round t) (round-Shrinks t)
        (λ rest less. keyword_loop-Agree m n rest (omega arith) (omega arith)) in
    (answer, keyword_loop-next m t ∙ a, keyword_loop-next n t ∙ b)

-- With more rounds than the text has bytes the search does not use up its rounds: it ends by itself,
-- with the answer of `keyword`.
pub keyword_loop-ends :
    (rounds : ℕ) (t : Bytes) → length t < rounds → keyword_loop rounds t ≡ some (keyword t)
unfolding keyword
keyword_loop-ends rounds t h =
    let (answer, a, b) = keyword_loop-Agree rounds (suc (length t)) t h (omega arith) in
    let e : keyword t ≡ answer = ap answer_of b in a ∙ ap some (sym e)
