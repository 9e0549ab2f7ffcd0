-- ===== src/Hammer/Audit/Accepts.antt =====
-- The audit's tests, one by one.
use sqlite_broker.Prelude.{
  ℕ, ◌==◌, ==_iff, ==_self, ◌≡◌, refl, Bool, true, false, not, List, [], ◌∷◌, All, Option, none,
  some, bytes_eq, eq-bytes_eq, bytes_eq_self,
}
use mathlib.Core.Bool.{and-eq-true_iff}
use sqlite_broker.Prelude.Assoc
use sqlite_broker.Prelude.Assoc.{Assoc}
use sqlite_broker.Prelude.Result.{Result, ok, err, ◌>>=◌}
use sqlite_broker.Text.{Bytes, codes}
use sqlite_broker.Text.Lines.{lines}
use sqlite_broker.Text.Space.{trim}
use sqlite_broker.Text.Search.{starts_with}
use sqlite_broker.Hammer.Claim.{Claim}
use sqlite_broker.Hammer.Audit.{
  ensure, column_at, event_rows, seen_sql, versions_sql, events_sql, token_sql, balance_sql,
  check_count, check_token, check_balance, audit_claim, audit_claims, audit,
}

-- This answer was given, and it is so.
abbrev pub Gives : {A : Type 0} → Result Bytes A → (A → Type 0) → Type 0
Gives {A = A} r P = (a : A) × (r ≡ ok a) × P a

-- The file has what the worker reported.
pub record IsMatched (raw_sql : Bytes → Result Bytes Bytes) (by_worker : Assoc (ℕ × ℕ)) (c : Claim)
    : Type 0 where
  pub counted : Assoc.get c.worker by_worker ≡ some (c.writes, c.sum_seq)
  pub sample_there :
      Gives
        (raw_sql (token_sql c.worker c.sample))
        (λ found. bytes_eq (trim found) (codes "0") ≡ false)
  pub last_there :
      Gives
        (raw_sql (token_sql c.worker c.last))
        (λ found. bytes_eq (trim found) (codes "0") ≡ false)
  pub balanced :
      Gives
        (raw_sql (balance_sql c.worker))
        (λ balance. column_at 0 (trim balance) ≡ column_at 1 (trim balance))

bind-ok :
    {A B : Type 0} (r : Result Bytes A) (f : A → Result Bytes B) {b : B}
    → (r >>= f) ≡ ok b
    → Gives r (λ a. f a ≡ ok b)
bind-ok (ok a) f h = (a, refl, h)
bind-ok (err e) f h = absurd (cc)

ensure-ok : (b : Bool) (e : Bytes) {x : Unit {0}} → ensure b e ≡ ok x → b ≡ true
ensure-ok true e h = refl
ensure-ok false e h = absurd (cc)

check_count-ok :
    (c : Claim) (o : Option (ℕ × ℕ)) {x : Unit {0}}
    → check_count c o ≡ ok x
    → o ≡ some (c.writes, c.sum_seq)
unfolding check_count
check_count-ok c none h = absurd (cc)
check_count-ok c (some (count, sum_seq)) h =
    let (a, b) = (and-eq-true_iff (count == c.writes) (sum_seq == c.sum_seq)).0 (ensure-ok _ _ h) in
    let same = (==_iff count c.writes).0 a in let equal = (==_iff sum_seq c.sum_seq).0 b in cc

not-ok : (b : Bool) → not b ≡ true → b ≡ false
not-ok true h = absurd (cc)
not-ok false h = refl

module _ (raw_sql : Bytes → Result Bytes Bytes) where
  check_token-ok :
      (c : Claim) (token : Bytes) {x : Unit {0}}
      → check_token raw_sql c token ≡ ok x
      → Gives
          (raw_sql (token_sql c.worker token))
          (λ found. bytes_eq (trim found) (codes "0") ≡ false)
  unfolding check_token
  check_token-ok c token h =
      let (found, e, k) = bind-ok _ _ h in (found, e, not-ok _ (ensure-ok _ _ k))

  ok-check_token :
      (c : Claim) (token : Bytes)
      → Gives
          (raw_sql (token_sql c.worker token))
          (λ found. bytes_eq (trim found) (codes "0") ≡ false)
      → check_token raw_sql c token ≡ ok tt
  unfolding check_token
  ok-check_token c token (found, e, there) = rw (e, there) refl

  audit_claim-IsMatched :
      (by_worker : Assoc (ℕ × ℕ)) (c : Claim) {x : Unit {0}}
      → audit_claim raw_sql by_worker c ≡ ok x
      → IsMatched raw_sql by_worker c
  unfolding audit_claim check_balance
  audit_claim-IsMatched by_worker c h =
      let (_, counted, h1) = bind-ok _ _ h in
      let (_, sample, h2) = bind-ok _ _ h1 in
      let (_, last_, h3) = bind-ok _ _ h2 in
      let (balance, e, h4) = bind-ok _ _ h3 in
      record {
        counted = check_count-ok c _ counted;
        sample_there = check_token-ok c c.sample sample;
        last_there = check_token-ok c c.last last_;
        balanced = (balance, e, eq-bytes_eq _ _ (ensure-ok _ _ h4));
      }

  IsMatched-audit_claim :
      (by_worker : Assoc (ℕ × ℕ)) (c : Claim)
      → IsMatched raw_sql by_worker c
      → audit_claim raw_sql by_worker c ≡ ok tt
  unfolding audit_claim check_balance check_count
  IsMatched-audit_claim by_worker c m =
      rw
        (
          m.counted,
          ==_self c.writes,
          ==_self c.sum_seq,
          ok-check_token c c.sample m.sample_there,
          ok-check_token c c.last m.last_there,
          m.balanced.1,
          m.balanced.2,
          bytes_eq_self (column_at 1 (trim m.balanced.0)),
        )
        refl

  audit_claims-IsMatched :
      (by_worker : Assoc (ℕ × ℕ)) (cs : List Claim) {x : Unit {0}}
      → audit_claims raw_sql by_worker cs ≡ ok x
      → All (IsMatched raw_sql by_worker) cs
  unfolding audit_claims
  audit_claims-IsMatched by_worker [] h = tt
  audit_claims-IsMatched by_worker (c ∷ cs) h =
      let (_, this, rest) = bind-ok _ _ h in
      (audit_claim-IsMatched by_worker c this, audit_claims-IsMatched by_worker cs rest)

  IsMatched-audit_claims :
      (by_worker : Assoc (ℕ × ℕ)) (cs : List Claim)
      → All (IsMatched raw_sql by_worker) cs
      → audit_claims raw_sql by_worker cs ≡ ok tt
  unfolding audit_claims
  IsMatched-audit_claims by_worker [] h = refl
  IsMatched-audit_claims by_worker (c ∷ cs) h =
      rw (IsMatched-audit_claim by_worker c h.0) (IsMatched-audit_claims by_worker cs h.1)

  -- The files are what they should be, and the storage has what each worker reported.
  pub record IsSound (storage stub : Result Bytes Bytes) (claims : List Claim) : Type 0 where
    pub file : Gives storage (λ header. starts_with (codes "SQLite format 3") header ≡ true)
    pub kept : Gives stub (λ bytes. starts_with (codes "SQLITEBROKER1\n") bytes ≡ true)
    pub integrity :
        Gives (raw_sql (codes "PRAGMA integrity_check;")) (λ answer. trim answer ≡ codes "ok")
    pub versions : Gives (raw_sql versions_sql) (λ answer. Unit)
    pub seen : Gives (raw_sql seen_sql) (λ answer. trim answer ≡ codes "1")
    pub workers : Gives (raw_sql events_sql) (λ events.
        Gives
          (event_rows (lines events) [])
          (λ by_worker. All (IsMatched raw_sql by_worker) claims))

  pub audit-IsSound :
      (storage stub : Result Bytes Bytes) (claims : List Claim)
      → audit raw_sql storage stub claims ≡ ok tt
      → IsSound storage stub claims
  unfolding audit
  audit-IsSound storage stub claims h =
      let (header, e1, h1) = bind-ok _ _ h in
      let (_, t1, h2) = bind-ok _ _ h1 in
      let (bytes, e2, h3) = bind-ok _ _ h2 in
      let (_, t2, h4) = bind-ok _ _ h3 in
      let (integrity, e3, h5) = bind-ok _ _ h4 in
      let (_, t3, h6) = bind-ok _ _ h5 in
      let (versions, e4, h7) = bind-ok _ _ h6 in
      let (seen, e5, h8) = bind-ok _ _ h7 in
      let (_, t5, h9) = bind-ok _ _ h8 in
      let (events, e6, h10) = bind-ok _ _ h9 in
      let (by_worker, e7, h11) = bind-ok _ _ h10 in
      record {
        file = (header, e1, ensure-ok _ _ t1);
        kept = (bytes, e2, ensure-ok _ _ t2);
        integrity = (integrity, e3, eq-bytes_eq _ _ (ensure-ok _ _ t3));
        versions = (versions, e4, tt);
        seen = (seen, e5, eq-bytes_eq _ _ (ensure-ok _ _ t5));
        workers = (events, e6, (by_worker, e7, audit_claims-IsMatched by_worker claims h11));
      }

  pub IsSound-audit :
      (storage stub : Result Bytes Bytes) (claims : List Claim)
      → IsSound storage stub claims
      → audit raw_sql storage stub claims ≡ ok tt
  unfolding audit
  IsSound-audit storage stub claims s =
      rw
        (
          s.file.1, s.file.2, s.kept.1, s.kept.2, s.integrity.1, s.integrity.2, s.versions.1,
          s.seen.1, s.seen.2, s.workers.1, s.workers.2.1,
        )
        (IsMatched-audit_claims s.workers.2.0 claims s.workers.2.2)
