-- ===== src/Hammer/Claim/Words.antt =====
-- The words of a line of fields, and the numbers in them.
use sqlite_broker.Prelude.{
  ℕ, zero, suc, ◌+◌, ◌*◌, ◌-◌, ◌/◌, ◌%◌, ◌≤◌, ◌<◌, ◌==◌, ◌≡◌, refl, ap, ◌∙◌, arith, false, [], ◌∷◌,
  ◌++◌, append-nil, append_assoc, All, Bool-cases, inl, inr,
}
use sqlite_broker.Prelude.Result.{ok}
use sqlite_broker.Text.{Bytes}
use sqlite_broker.Text.Decimal.{decimal, decimal_loop}
use sqlite_broker.Text.Space.{is_ascii_space, is_wide_space, space_len, emit, words}
use sqlite_broker.Text.Unsigned.{parse_digits, parse_below}

-- An ASCII character that can be seen.
abbrev pub IsGraphic : ℕ → Type 0
IsGraphic b = (33 ≤ b) × (b < 127)

graphic-space_len : (b : ℕ) (rest : Bytes) → IsGraphic b → space_len (b ∷ rest) ≡ 0
unfolding space_len is_ascii_space is_wide_space
graphic-space_len b [] g = ground arith
graphic-space_len b (c ∷ []) g = ground arith
graphic-space_len b (c ∷ d ∷ rest) g = ground arith

blank-space_len : (rest : Bytes) → space_len (b' ' ∷ rest) ≡ 1
unfolding space_len is_ascii_space
blank-space_len [] = refl
blank-space_len (c ∷ []) = refl
blank-space_len (c ∷ d ∷ rest) = refl

words-blank :
    (word xs rest : Bytes)
    → All IsGraphic xs
    → words 0 word (xs ++ (b' ' ∷ rest)) ≡ emit (word ++ xs) (words 0 [] rest)
unfolding words
words-blank word [] rest g = rw (blank-space_len rest, words) (rw append-nil refl)
words-blank word (x ∷ xs) rest g =
    rw (graphic-space_len x (xs ++ (b' ' ∷ rest)) g.0, words)
      (words-blank (word ++ (x ∷ [])) xs rest g.1
        ∙ ap (λ (t : Bytes). emit t (words 0 [] rest)) (append_assoc word (x ∷ []) xs))

words-end : (word xs : Bytes) → All IsGraphic xs → words 0 word xs ≡ emit (word ++ xs) []
unfolding words
words-end word [] g = rw append-nil refl
words-end word (x ∷ xs) g =
    rw (graphic-space_len x xs g.0, words)
      (words-end (word ++ (x ∷ [])) xs g.1
        ∙ ap (λ (t : Bytes). emit t []) (append_assoc word (x ∷ []) xs))

-- A word in front of a blank, and the last word.
pub word-blank :
    (x : ℕ) (xs rest : Bytes)
    → All IsGraphic (x ∷ xs)
    → words 0 [] ((x ∷ xs) ++ (b' ' ∷ rest)) ≡ (x ∷ xs) ∷ words 0 [] rest
word-blank x xs rest g = words-blank [] (x ∷ xs) rest g

pub word-end : (x : ℕ) (xs : Bytes) → All IsGraphic (x ∷ xs) → words 0 [] (x ∷ xs) ≡ (x ∷ xs) ∷ []
word-end x xs g = words-end [] (x ∷ xs) g

abbrev pub IsDigit : ℕ → Type 0
IsDigit b = (b'0' ≤ b) × (b ≤ b'9')

-- Digits in front of digits.
abbrev pub Digits : Bytes → Type 0
Digits [] = ⊥
Digits (b ∷ bs) = IsDigit b × All IsDigit bs

decimal_loop-Digits :
    (rounds n : ℕ) (rest : Bytes)
    → n < rounds
    → All IsDigit rest
    → Digits (decimal_loop rounds n rest)
unfolding decimal_loop
decimal_loop-Digits zero n rest h d = absurd (omega arith)
decimal_loop-Digits (suc rounds) n rest h d = elim (Bool-cases (n / 10 == 0)) [
  | inl small ↦ rw small ((omega arith, omega arith), d)
  | inr large ↦ rw large (
      decimal_loop-Digits rounds (n / 10) ((b'0' + n % 10) ∷ rest) (ground arith)
        ((omega arith, omega arith), d))
]

pub decimal-Digits : (n : ℕ) → Digits (decimal n)
unfolding decimal
decimal-Digits n = decimal_loop-Digits (suc n) n [] (omega arith) tt

IsGraphic-of : (xs : Bytes) → All IsDigit xs → All IsGraphic xs
IsGraphic-of [] d = tt
IsGraphic-of (x ∷ xs) d = ((omega arith, omega arith), IsGraphic-of xs d.1)

pub decimal-IsGraphic : (n : ℕ) → All IsGraphic (decimal n)
decimal-IsGraphic n = go (decimal n) (decimal-Digits n)
  where
    go : (xs : Bytes) → Digits xs → All IsGraphic xs
    go [] d = absurd d
    go (x ∷ xs) d = IsGraphic-of (x ∷ xs) d

digit-step :
    (limit acc b : ℕ) (bs : Bytes)
    → IsDigit b
    → acc * 10 + (b - b'0') < limit
    → parse_digits limit acc (b ∷ bs) ≡ parse_digits limit (acc * 10 + (b - b'0')) bs
unfolding parse_digits
digit-step limit acc b bs d h = ground arith

parse_digits-decimal_loop :
    (limit rounds n : ℕ) (rest : Bytes)
    → n < rounds
    → n < limit
    → parse_digits limit 0 (decimal_loop rounds n rest) ≡ parse_digits limit n rest
unfolding decimal_loop
parse_digits-decimal_loop limit zero n rest h fits = absurd (omega arith)
parse_digits-decimal_loop limit (suc rounds) n rest h fits = elim (Bool-cases (n / 10 == 0)) [
  | inl small ↦ rw small (
      digit-step limit 0 (b'0' + n % 10) rest (omega arith, omega arith) (omega arith)
      ∙ ap (λ (t : ℕ). parse_digits limit t rest) (ground arith))
  | inr large ↦ rw large (
      parse_digits-decimal_loop limit rounds (n / 10) ((b'0' + n % 10) ∷ rest) (ground arith)
        (omega arith)
      ∙ digit-step limit (n / 10) (b'0' + n % 10) rest (omega arith, omega arith) (omega arith)
      ∙ ap (λ (t : ℕ). parse_digits limit t rest) (omega arith))
]

parse_below-Digits :
    (limit : ℕ) (xs : Bytes) → Digits xs → parse_below limit xs ≡ parse_digits limit 0 xs
unfolding parse_below
parse_below-Digits limit [] d = absurd d
parse_below-Digits limit (x ∷ xs) d = let e : (x == b'+') ≡ false = ground arith in rw e refl

-- A number below the limit is read back.
pub parse_below-decimal : (limit n : ℕ) → n < limit → parse_below limit (decimal n) ≡ ok n
unfolding decimal
parse_below-decimal limit n h =
    parse_below-Digits limit (decimal n) (decimal-Digits n)
    ∙ parse_digits-decimal_loop limit (suc n) n [] (omega arith) h
    ∙ unfold parse_digits in refl
