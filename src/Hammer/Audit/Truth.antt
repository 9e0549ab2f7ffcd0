-- ===== src/Hammer/Audit/Truth.antt =====
-- When the audit accepts, where the tool answers it by what the storage holds.
use sqlite_broker.Prelude.{
  ℕ, ◌+◌, ◌==◌, ◌≡◌, ◌≢◌, refl, ap, sym, ◌∙◌, false, List, [], ◌∷◌, ◌++◌, All, some, bytes_eq,
  eq-bytes_eq, bytes_eq_self, Bool-cases, inl, inr,
}
use sqlite_broker.Prelude.Assoc
use sqlite_broker.Prelude.Assoc.{Assoc}
use sqlite_broker.Prelude.Result.{Result, ok}
use sqlite_broker.Text.{Bytes, codes}
use sqlite_broker.Text.Decimal.{decimal, decimal_loop}
use sqlite_broker.Text.Lines.{lines}
use sqlite_broker.Text.Space.{trim}
use sqlite_broker.Hammer.Statements.{format}
use sqlite_broker.Hammer.Claim.{Claim}
use sqlite_broker.Hammer.Audit.{column_at, token_sql, balance_sql, audit}
use sqlite_broker.Hammer.Audit.Accepts.{Gives, IsMatched, audit-IsSound, IsSound-audit}
use sqlite_broker.Hammer.Audit.Ledger.{
  Ledger, number, of_worker, of_kind, of_token, steps, is_in, difference, Prints, CountsToken,
  Balances, IsPlain, IsAnswered, IsTruthful, IsBorneOut, IsInOrder,
}
use sqlite_broker.Hammer.Audit.Columns.{
  decimal_inj, difference-eq, eq-difference, balance_columns, tallies, event_rows-tallies,
  get-tallies,
}

-- The tokens of a claim can be quoted.
abbrev pub IsQuotable : Claim → Type 0
IsQuotable c = IsPlain c.sample × IsPlain c.last

given : {r : Result Bytes Bytes} {a b : Bytes} → r ≡ ok a → r ≡ ok b → a ≡ b
given h k = cc

read_off : {r : Result Bytes (Assoc (ℕ × ℕ))} {a b : Assoc (ℕ × ℕ)} → r ≡ ok a → r ≡ ok b → a ≡ b
read_off h k = cc

zero_printed : decimal 0 ≡ codes "0"
unfolding decimal decimal_loop
zero_printed = refl

one_printed : decimal 1 ≡ codes "1"
unfolding decimal decimal_loop
one_printed = refl

found-nonzero : (n : ℕ) → bytes_eq (decimal n) (codes "0") ≡ false → n ≢ 0
found-nonzero n h z =
    let e = bytes_eq_self (decimal 0) in
    let k : bytes_eq (decimal 0) (codes "0") ≡ false =
      ap (λ (m : ℕ). bytes_eq (decimal m) (codes "0")) (sym z) ∙ h in
    let k' : bytes_eq (decimal 0) (decimal 0) ≡ false =
      ap (bytes_eq (decimal 0)) zero_printed ∙ k in
    absurd (cc)

nonzero-found : (n : ℕ) → n ≢ 0 → bytes_eq (decimal n) (codes "0") ≡ false
nonzero-found n h = elim (Bool-cases (bytes_eq (decimal n) (codes "0"))) [
  | inl same ↦ absurd (h (decimal_inj n 0 (eq-bytes_eq _ _ same ∙ sym zero_printed)))
  | inr other ↦ other
]

module _ (raw_sql : Bytes → Result Bytes Bytes) (l : Ledger) (t : IsTruthful raw_sql l) where
  rows : Assoc (ℕ × ℕ)
  rows = tallies l.events t.groups []

  get-rows :
      (w : ℕ)
      → number (of_worker w) l.events ≢ 0
      → Assoc.get w rows ≡ some (number (of_worker w) l.events, steps w l.events)
  unfolding rows
  get-rows w h = get-tallies l.events w t.groups [] ∙ rw (t.complete w h) refl

  rows-get :
      (w : ℕ) {p : ℕ × ℕ}
      → Assoc.get w rows ≡ some p
      → (number (of_worker w) l.events ≢ 0)
        × ((number (of_worker w) l.events, steps w l.events) ≡ p)
  unfolding rows Assoc.get
  rows-get w h = elim (Bool-cases (is_in w t.groups)) [
    | inl listed ↦
        let e = rw (get-tallies l.events w t.groups [], listed) at h in (t.occupied w listed, cc)
    | inr missing ↦ let e = rw (get-tallies l.events w t.groups [], missing) at h in absurd (cc)
  ]

  CountsToken-sql :
      (w : ℕ) (token : Bytes)
      → CountsToken raw_sql l w token
      → Prints (raw_sql (token_sql w token)) (decimal (number (of_token w token) l.events))
  unfolding token_sql format
  CountsToken-sql w token p = p

  Balances-sql :
      (w : ℕ)
      → Balances raw_sql l w
      → Prints (raw_sql (balance_sql w)) (
          difference
            (number (of_kind w (codes "insert")) l.events)
            (number (of_kind w (codes "delete")) l.events)
          ++ (b'|' ∷ decimal (number (λ v. v == w) l.items)))
  unfolding balance_sql format
  Balances-sql w p = p

  found-token :
      (w : ℕ) (token : Bytes)
      → CountsToken raw_sql l w token
      → Gives (raw_sql (token_sql w token)) (λ found. bytes_eq (trim found) (codes "0") ≡ false)
      → number (of_token w token) l.events ≢ 0
  found-token w token p (found, e, there) =
      let (out, e', text) = CountsToken-sql w token p in
      found-nonzero _
        (ap (λ (x : Bytes). bytes_eq x (codes "0")) (sym text ∙ ap trim (given e' e)) ∙ there)

  token-found :
      (w : ℕ) (token : Bytes)
      → CountsToken raw_sql l w token
      → number (of_token w token) l.events ≢ 0
      → Gives (raw_sql (token_sql w token)) (λ found. bytes_eq (trim found) (codes "0") ≡ false)
  token-found w token p h =
      let (out, e, text) = CountsToken-sql w token p in (out, e, (rw text (nonzero-found _ h)))

  balance-items :
      (w : ℕ)
      → Balances raw_sql l w
      → Gives
          (raw_sql (balance_sql w))
          (λ balance. column_at 0 (trim balance) ≡ column_at 1 (trim balance))
      → number (of_kind w (codes "insert")) l.events
        ≡ number (λ v. v == w) l.items + number (of_kind w (codes "delete")) l.events
  balance-items w p (balance, e, same) =
      let (out, e', text) = Balances-sql w p in
      let a = number (of_kind w (codes "insert")) l.events in
      let b = number (of_kind w (codes "delete")) l.events in
      let n = number (λ v. v == w) l.items in
      let printed = ap trim (given e e') ∙ text in
      difference-eq a b n (rw (printed, balance_columns a b n) at same)

  items-balance :
      (w : ℕ)
      → Balances raw_sql l w
      → number (of_kind w (codes "insert")) l.events
        ≡ number (λ v. v == w) l.items + number (of_kind w (codes "delete")) l.events
      → Gives
          (raw_sql (balance_sql w))
          (λ balance. column_at 0 (trim balance) ≡ column_at 1 (trim balance))
  items-balance w p h =
      let (out, e, text) = Balances-sql w p in
      let a = number (of_kind w (codes "insert")) l.events in
      let b = number (of_kind w (codes "delete")) l.events in
      let n = number (λ v. v == w) l.items in
      (out, e, (rw (text, balance_columns a b n) (eq-difference a b n h)))

  IsMatched-IsBorneOut :
      (c : Claim)
      → IsAnswered raw_sql l c
      → IsQuotable c
      → IsMatched raw_sql rows c
      → IsBorneOut l c
  IsMatched-IsBorneOut c a q m =
      let (there, same) = rows-get c.worker m.counted in
      record {
        any = there;
        writes = ap (λ (p : ℕ × ℕ). p.0) same;
        sum_seq = ap (λ (p : ℕ × ℕ). p.1) same;
        sample = found-token c.worker c.sample (a.sample q.0) m.sample_there;
        last = found-token c.worker c.last (a.last q.1) m.last_there;
        items = balance-items c.worker a.balance m.balanced;
      }

  IsBorneOut-IsMatched :
      (c : Claim)
      → IsAnswered raw_sql l c
      → IsQuotable c
      → IsBorneOut l c
      → IsMatched raw_sql rows c
  IsBorneOut-IsMatched c a q b = record {
    counted = get-rows c.worker b.any ∙ rw (b.writes, b.sum_seq) refl;
    sample_there = token-found c.worker c.sample (a.sample q.0) b.sample;
    last_there = token-found c.worker c.last (a.last q.1) b.last;
    balanced = items-balance c.worker a.balance b.items;
  }

  All-IsBorneOut :
      (cs : List Claim)
      → All (IsAnswered raw_sql l) cs
      → All IsQuotable cs
      → All (IsMatched raw_sql rows) cs
      → All (IsBorneOut l) cs
  All-IsBorneOut [] a q m = tt
  All-IsBorneOut (c ∷ cs) a q m =
      (IsMatched-IsBorneOut c a.0 q.0 m.0, All-IsBorneOut cs a.1 q.1 m.1)

  All-IsMatched :
      (cs : List Claim)
      → All (IsAnswered raw_sql l) cs
      → All IsQuotable cs
      → All (IsBorneOut l) cs
      → All (IsMatched raw_sql rows) cs
  All-IsMatched [] a q b = tt
  All-IsMatched (c ∷ cs) a q b = (IsBorneOut-IsMatched c a.0 q.0 b.0, All-IsMatched cs a.1 q.1 b.1)

  audit-IsInOrder :
      (header stub : Bytes) (claims : List Claim)
      → All (IsAnswered raw_sql l) claims
      → All IsQuotable claims
      → audit raw_sql (ok header) (ok stub) claims ≡ ok tt
      → IsInOrder l header stub claims
  unfolding rows
  audit-IsInOrder header stub claims a q h =
      let s = audit-IsSound raw_sql (ok header) (ok stub) claims h in
      let (out1, e1, integrity) = t.checked in
      let (out2, e2, columns) = t.seen in
      let (events, grouped, (by_worker, read, matched)) = s.workers in
      let same = ap lines (given grouped t.grouped) in
      let e = read_off read (rw same (event_rows-tallies l.events t.groups t.small)) in
      record {
        file = rw (given s.file.1 refl) at s.file.2;
        kept = rw (given s.kept.1 refl) at s.kept.2;
        whole = sym integrity ∙ (ap trim (given e1 s.integrity.1) ∙ s.integrity.2);
        migrated =
            decimal_inj _ 1
              (sym columns ∙ (ap trim (given e2 s.seen.1) ∙ (s.seen.2 ∙ sym one_printed)));
        reported = All-IsBorneOut claims a q (rw e at matched);
      }

  IsInOrder-audit :
      (header stub : Bytes) (claims : List Claim)
      → All (IsAnswered raw_sql l) claims
      → All IsQuotable claims
      → IsInOrder l header stub claims
      → audit raw_sql (ok header) (ok stub) claims ≡ ok tt
  unfolding rows
  IsInOrder-audit header stub claims a q o =
      let (out1, e1, integrity) = t.checked in
      let (out2, e2, columns) = t.seen in
      IsSound-audit raw_sql (ok header) (ok stub) claims (record {
        file = (header, refl, o.file);
        kept = (stub, refl, o.kept);
        integrity = (out1, e1, integrity ∙ o.whole);
        versions = (t.versions, t.migrations, tt);
        seen = (out2, e2, columns ∙ (ap decimal o.migrated ∙ one_printed));
        workers = (
          _,
          t.grouped,
          (rows, event_rows-tallies l.events t.groups t.small, All-IsMatched claims a q o.reported),
        );
      })

  -- Where what /usr/bin/sqlite3 prints for each text of the audit is what the storage holds, both files can
  -- be read, and no token that was reported has a quote in it: the audit accepts just where the file of
  -- the storage begins as SQLite's and the other as a stub, the integrity check says ok, `item` has one
  -- column `seen`, and for every worker that reported: it has events, as many as the writes it
  -- reported, and their steps add up to the sum it reported, both tokens that it named are among
  -- them, and its inserts are its items and its deletes together.
  pub audit_truth :
      (header stub : Bytes) (claims : List Claim)
      → All (IsAnswered raw_sql l) claims
      → All IsQuotable claims
      → (audit raw_sql (ok header) (ok stub) claims ≡ ok tt → IsInOrder l header stub claims)
        × (IsInOrder l header stub claims → audit raw_sql (ok header) (ok stub) claims ≡ ok tt)
  audit_truth header stub claims a q =
      (audit-IsInOrder header stub claims a q, IsInOrder-audit header stub claims a q)
