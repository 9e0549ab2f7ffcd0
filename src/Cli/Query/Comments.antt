-- ===== src/Cli/Query/Comments.antt =====
-- Comments in front of a statement do not count, however many they are.
use sqlite_broker.Prelude.{
  ℕ, zero, suc, ◌≤◌, ◌<◌, ◌==◌, ◌≡◌, refl, ap, arith, true, false, ◌&&◌, if-both, [], ◌∷◌, ◌++◌,
  All, Option, none, some, length,
}
use sqlite_broker.Text.{Bytes}
use sqlite_broker.Text.Space.{space_len, is_ascii_space, is_wide_space, trim_front}
use sqlite_broker.Text.Search.{split_once, with_front}
use sqlite_broker.Cli.Query.{
  behind_comment, after_comment, skip_on, skip_comments, or_no_query, is_query,
}

front_shortens :
    (b n : ℕ) (bs : Bytes)
    → ((k : ℕ) → length (trim_front k bs) ≤ length bs)
    → length (elim n [ zero ↦ b ∷ bs | suc k ↦ trim_front k bs ]) ≤ suc (length bs)
front_shortens b zero bs h = omega arith
front_shortens b (suc k) bs h = omega (arith, h k)

trim_front-shortens : (skip : ℕ) (xs : Bytes) → length (trim_front skip xs) ≤ length xs
unfolding trim_front
trim_front-shortens skip [] = omega arith
trim_front-shortens (suc k) (b ∷ bs) = omega (arith, trim_front-shortens k bs)
trim_front-shortens zero (b ∷ bs) =
    front_shortens b (space_len (b ∷ bs)) bs (λ k. trim_front-shortens k bs)

-- What stands behind a separator is shorter than the text.
abbrev Within : ℕ → Option (Bytes × Bytes) → Type 0
Within n none = Unit
Within n (some (front, back)) = length back < n

Within-more : (b n : ℕ) (o : Option (Bytes × Bytes)) → Within n o → Within (suc n) (with_front b o)
Within-more b n none h = tt
Within-more b n (some (front, back)) h = omega arith

split_once-Within : (sep : ℕ) (xs : Bytes) → Within (length xs) (split_once sep xs)
unfolding split_once
split_once-Within sep [] = tt
split_once-Within sep (b ∷ bs) =
    if-both (Within (suc (length bs))) (b == sep) (λ h. omega arith)
      (λ h. Within-more b (length bs) (split_once sep bs) (split_once-Within sep bs))

abbrev Shorter : ℕ → Option (Option Bytes) → Type 0
Shorter n (some (some rest)) = length rest < n
Shorter n _ = Unit

behind_comment-Shorter :
    (n : ℕ) (o : Option (Bytes × Bytes))
    → Within n o
    → Shorter (suc (suc n)) (some (behind_comment o))
behind_comment-Shorter n none h = tt
behind_comment-Shorter n (some (comment, rest)) h = omega (arith, trim_front-shortens 0 rest)

after_comment-Shorter : (xs : Bytes) → Shorter (length xs) (after_comment xs)
unfolding after_comment
after_comment-Shorter [] = tt
after_comment-Shorter (a ∷ []) = tt
after_comment-Shorter (a ∷ b ∷ body) =
    if-both (Shorter (suc (suc (length body)))) ((a == b'-') && (b == b'-'))
      (λ h. behind_comment-Shorter (length body) (split_once 10 body) (split_once-Within 10 body))
      (λ h. tt)

skip_on-same :
    (again again' : Bytes → Option Bytes) (xs : Bytes) (o : Option (Option Bytes))
    → ((rest : Bytes) → length rest < length xs → again rest ≡ again' rest)
    → Shorter (length xs) o
    → skip_on again xs o ≡ skip_on again' xs o
skip_on-same again again' xs none same s = refl
skip_on-same again again' xs (some none) same s = refl
skip_on-same again again' xs (some (some rest)) same s = same rest s

-- Any number of rounds above the length of the text comes to the same.
skip_comments-enough :
    (n m : ℕ) (xs : Bytes) → length xs < n → length xs < m → skip_comments n xs ≡ skip_comments m xs
unfolding skip_comments
skip_comments-enough zero m xs h k = absurd (omega arith)
skip_comments-enough (suc n) zero xs h k = absurd (omega arith)
skip_comments-enough (suc n) (suc m) xs h k =
    skip_on-same (skip_comments n) (skip_comments m) xs (after_comment xs)
      (λ rest s. skip_comments-enough n m rest (omega arith) (omega arith))
      (after_comment-Shorter xs)

split_once-first :
    (sep : ℕ) (xs ys : Bytes)
    → All (λ x. (x == sep) ≡ false) xs
    → split_once sep (xs ++ (sep ∷ ys)) ≡ some (xs, ys)
unfolding split_once
split_once-first sep [] ys h = let e : (sep == sep) ≡ true = ground arith in rw e refl
split_once-first sep (x ∷ xs) ys h = rw (h.0, split_once-first sep xs ys h.1) refl

trim_front-comment :
    (comment rest : Bytes)
    → trim_front 0 (b'-' ∷ b'-' ∷ (comment ++ (10 ∷ rest))) ≡ b'-' ∷ b'-' ∷ (comment ++ (10 ∷ rest))
unfolding trim_front space_len is_ascii_space is_wide_space
trim_front-comment [] rest = refl
trim_front-comment (c ∷ cs) rest = refl

-- A comment up to the end of its line, in front of any statement, does not change whether it is a
-- query, so that any number of them does not.
pub is_query-comment :
    (comment rest : Bytes)
    → All (λ b. (b == 10) ≡ false) comment
    → is_query (b'-' ∷ b'-' ∷ (comment ++ (10 ∷ rest))) ≡ is_query rest
unfolding is_query skip_comments after_comment
is_query-comment comment rest h = rw (trim_front-comment comment rest) (
    rw (split_once-first 10 comment rest h) (
      ap or_no_query (
        skip_comments-enough (suc (suc (length (comment ++ (10 ∷ rest)))))
          (suc (length (trim_front 0 rest))) (trim_front 0 rest)
          (omega (arith, trim_front-shortens 0 rest, longer comment rest)) (omega arith))))
  where
    longer : (xs ys : Bytes) → length ys ≤ length (xs ++ (10 ∷ ys))
    longer [] ys = omega arith
    longer (x ∷ xs) ys = omega (arith, longer xs ys)
