-- ===== src/Hammer/Audit/Columns.antt =====
-- What is read back from the columns and the rows that /usr/bin/sqlite3 prints.
use sqlite_broker.Prelude.{
  ℕ, suc, ◌+◌, ◌-◌, ◌^◌, ◌≤◌, ◌<◌, ◌==◌, ◌≡◌, ◌≢◌, refl, ap, ◌∙◌, arith, leb, true, false,
  if◌then◌else◌, List, [], ◌∷◌, ◌++◌, some, All, Bool-cases, inl, inr, ==_iff,
}
use sqlite_broker.Prelude.Assoc
use sqlite_broker.Prelude.Assoc.{Assoc}
use sqlite_broker.Prelude.Result.{Result, ok}
use sqlite_broker.Text.{Bytes}
use sqlite_broker.Text.Decimal.{decimal}
use sqlite_broker.Text.Lines.{lines, lines_from}
use sqlite_broker.Text.Lines.Laws.{lines-break}
use sqlite_broker.Text.Space.Laws.{IsNoBreak}
use sqlite_broker.Text.Unsigned.{parse_below}
use sqlite_broker.Hammer.Claim.Words.{IsDigit, Digits, decimal-Digits, parse_below-decimal}
use sqlite_broker.Hammer.Audit.{split_columns, event_rows}
use sqlite_broker.Hammer.Audit.Ledger.{
  Event, number, of_worker, steps, is_in, difference, group_row, group_rows,
}

-- A character of a number.
abbrev IsCell : ℕ → Type 0
IsCell b = (b'-' ≤ b) × (b ≤ b'9')

Digits-IsCell : (xs : Bytes) → All IsDigit xs → All IsCell xs
Digits-IsCell [] d = tt
Digits-IsCell (x ∷ xs) d = ((omega arith, omega arith), Digits-IsCell xs d.1)

Digits-All : (xs : Bytes) → Digits xs → All IsDigit xs
Digits-All [] d = tt
Digits-All (x ∷ xs) d = d

decimal-IsCell : (n : ℕ) → All IsCell (decimal n)
decimal-IsCell n = Digits-IsCell (decimal n) (Digits-All (decimal n) (decimal-Digits n))

ok_eq : {r : Result Bytes ℕ} {a b : ℕ} → r ≡ ok a → r ≡ ok b → a ≡ b
ok_eq h k = cc

pub decimal_inj : (a b : ℕ) → decimal a ≡ decimal b → a ≡ b
decimal_inj a b h = ok_eq (parse_below-decimal (suc (a + b)) a (omega arith)) (
    ap (λ (t : Bytes). parse_below (suc (a + b)) t) h
    ∙ parse_below-decimal (suc (a + b)) b (omega arith))

Digits-minus : (xs ys : Bytes) → Digits ys → (b'-' ∷ xs) ≢ ys
Digits-minus xs [] d h = d
Digits-minus xs (y ∷ ys) d h = let e : b'-' ≡ y = cc in omega arith

-- A difference is printed as a number just where it is that number.
pub difference-eq : (a b n : ℕ) → difference a b ≡ decimal n → a ≡ n + b
difference-eq a b n h = elim (Bool-cases (leb b a)) [
  | inl more ↦ let e = decimal_inj (a - b) n (rw more at h) in ground arith
  | inr less ↦ absurd (Digits-minus (decimal (b - a)) (decimal n) (decimal-Digits n) (rw less at h))
]

pub eq-difference : (a b n : ℕ) → a ≡ n + b → difference a b ≡ decimal n
eq-difference a b n h =
    let more : leb b a ≡ true = ground arith in rw more (ap decimal (omega arith))

pub difference-IsCell : (a b : ℕ) → All IsCell (difference a b)
difference-IsCell a b = elim (Bool-cases (leb b a)) [
  | inl more ↦ rw more (decimal-IsCell (a - b))
  | inr less ↦ rw less ((omega arith, omega arith), decimal-IsCell (b - a))
]

split_columns-bar :
    (xs rest : Bytes)
    → All IsCell xs
    → split_columns (xs ++ (b'|' ∷ rest)) ≡ xs ∷ split_columns rest
unfolding split_columns
split_columns-bar [] rest h = refl
split_columns-bar (x ∷ xs) rest h =
    let other : (x == b'|') ≡ false = ground arith in rw (other, split_columns-bar xs rest h.1) refl

split_columns-end : (xs : Bytes) → All IsCell xs → split_columns xs ≡ xs ∷ []
unfolding split_columns
split_columns-end [] h = refl
split_columns-end (x ∷ xs) h =
    let other : (x == b'|') ≡ false = ground arith in rw (other, split_columns-end xs h.1) refl

-- The two columns of the balance.
pub balance_columns :
    (a b n : ℕ)
    → split_columns (difference a b ++ (b'|' ∷ decimal n)) ≡ difference a b ∷ decimal n ∷ []
balance_columns a b n =
    split_columns-bar (difference a b) (decimal n) (difference-IsCell a b)
    ∙ ap (◌∷◌ (difference a b)) (split_columns-end (decimal n) (decimal-IsCell n))

group_columns :
    (es : List Event) (w : ℕ)
    → split_columns (group_row es w)
      ≡ decimal w ∷ decimal (number (of_worker w) es) ∷ decimal (steps w es) ∷ []
group_columns es w =
    split_columns-bar (decimal w) _ (decimal-IsCell w)
    ∙ ap (◌∷◌ (decimal w)) (
        split_columns-bar (decimal (number (of_worker w) es)) _ (decimal-IsCell _)
        ∙ ap (◌∷◌ (decimal (number (of_worker w) es)))
            (split_columns-end (decimal (steps w es)) (decimal-IsCell _)))

IsCell-NoBreak : (xs : Bytes) → All IsCell xs → All IsNoBreak xs
IsCell-NoBreak [] h = tt
IsCell-NoBreak (x ∷ xs) h = ((ground arith, ground arith), IsCell-NoBreak xs h.1)

NoBreak-append : (xs ys : Bytes) → All IsNoBreak xs → All IsNoBreak ys → All IsNoBreak (xs ++ ys)
NoBreak-append [] ys h k = k
NoBreak-append (x ∷ xs) ys h k = (h.0, NoBreak-append xs ys h.1 k)

decimal-NoBreak : (n : ℕ) → All IsNoBreak (decimal n)
decimal-NoBreak n = IsCell-NoBreak (decimal n) (decimal-IsCell n)

group_row-NoBreak : (es : List Event) (w : ℕ) → All IsNoBreak (group_row es w)
group_row-NoBreak es w = NoBreak-append (decimal w) _ (decimal-NoBreak w) (
  (refl, refl),
  NoBreak-append (decimal (number (of_worker w) es)) _ (decimal-NoBreak _)
      ((refl, refl), decimal-NoBreak (steps w es)),
)

-- What is read of the rows, and where it stands then.
abbrev pub tallies : List Event → List ℕ → Assoc (ℕ × ℕ) → Assoc (ℕ × ℕ)
tallies es [] by_worker = by_worker
tallies es (w ∷ ws) by_worker =
    tallies es ws (Assoc.insert w (number (of_worker w) es, steps w es) by_worker)

abbrev pub IsSmall : List Event → ℕ → Type 0
IsSmall es w = (w < 2 ^ 64) × (number (of_worker w) es < 2 ^ 64) × (steps w es < 2 ^ 64)

event_rows-from :
    (es : List Event) (ws : List ℕ) (by_worker : Assoc (ℕ × ℕ))
    → All (IsSmall es) ws
    → event_rows (lines_from [] (group_rows es ws)) by_worker ≡ ok (tallies es ws by_worker)
unfolding event_rows lines_from
event_rows-from es [] by_worker h = refl
event_rows-from es (w ∷ ws) by_worker h =
    rw
      (
        lines-break (group_row es w) (group_rows es ws) (group_row-NoBreak es w),
        group_columns es w,
        parse_below-decimal (2 ^ 64) w h.0.0,
        parse_below-decimal (2 ^ 64) (number (of_worker w) es) h.0.1,
        parse_below-decimal (2 ^ 64) (steps w es) h.0.2,
      )
      (event_rows-from es ws _ h.1)

pub event_rows-tallies :
    (es : List Event) (ws : List ℕ)
    → All (IsSmall es) ws
    → event_rows (lines (group_rows es ws)) [] ≡ ok (tallies es ws [])
unfolding lines
event_rows-tallies es ws h = event_rows-from es ws [] h

-- A worker with a row has its numbers, and one without a row has what it had.
pub get-tallies :
    (es : List Event) (w : ℕ) (ws : List ℕ) (by_worker : Assoc (ℕ × ℕ))
    → Assoc.get w (tallies es ws by_worker)
      ≡ (if is_in w ws then some (number (of_worker w) es, steps w es) else Assoc.get w by_worker)
get-tallies es w [] by_worker = refl
get-tallies es w (v ∷ ws) by_worker = get-tallies es w ws _ ∙ elim (Bool-cases (v == w)) [
  | inl same ↦
      let e = (==_iff v w).0 same in
      rw (Assoc.get-insert v w (number (of_worker v) es, steps v es) by_worker, same)
        (rw e (elim (Bool-cases (is_in w ws)) [ inl i ↦ rw i refl | inr i ↦ rw i refl ]))
  | inr other ↦
      rw (Assoc.get-insert v w (number (of_worker v) es, steps v es) by_worker, other) refl
]
