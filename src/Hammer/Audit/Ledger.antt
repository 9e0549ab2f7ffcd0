-- ===== src/Hammer/Audit/Ledger.antt =====
-- What a storage holds, as the texts of `audit` of server/src/hammer.rs ask for it: a description of the
-- tables, and what /usr/bin/sqlite3 prints of them.
use sqlite_broker.Prelude.{
  ℕ, ◌+◌, ◌-◌, ◌^◌, ◌<◌, ◌==◌, ◌≡◌, ◌≢◌, leb, Bool, true, false, ◌&&◌, ◌||◌, if◌then◌else◌, List,
  [], ◌∷◌, ◌++◌, All, bytes_eq,
}
use sqlite_broker.Prelude.Result.{Result, ok}
use sqlite_broker.Text.{Bytes, codes}
use sqlite_broker.Text.Decimal.{decimal}
use sqlite_broker.Text.Space.{trim}
use sqlite_broker.Text.Search.{starts_with}
use sqlite_broker.Hammer.Claim.{Claim}

-- A row of the table `event`.
pub record Event : Type 0 where
  pub worker : ℕ
  pub seq : ℕ
  pub kind : Bytes
  pub token : Bytes

-- The answer of the integrity check, the columns of the table `item`, and of each item its worker.
pub record Ledger : Type 0 where
  pub integrity : Bytes
  pub columns : List Bytes
  pub events : List Event
  pub items : List ℕ

abbrev pub number {ℓ} : {A : Type ℓ} → (A → Bool) → List A → ℕ
number test [] = 0
number test (x ∷ xs) = (if test x then 1 else 0) + number test xs

abbrev pub of_worker : ℕ → Event → Bool
of_worker w e = e.worker == w

abbrev pub of_kind : ℕ → Bytes → Event → Bool
of_kind w kind e = of_worker w e && bytes_eq e.kind kind

abbrev pub of_token : ℕ → Bytes → Event → Bool
of_token w token e = of_worker w e && bytes_eq e.token token

abbrev pub steps : ℕ → List Event → ℕ
steps w [] = 0
steps w (e ∷ es) = (if of_worker w e then e.seq else 0) + steps w es

abbrev pub is_in : ℕ → List ℕ → Bool
is_in w [] = false
is_in w (v ∷ vs) = (v == w) || is_in w vs

-- A difference, as SQL prints it.
abbrev pub difference : ℕ → ℕ → Bytes
difference a b = if leb b a then decimal (a - b) else b'-' ∷ decimal (b - a)

-- A row of the events, of which there is one for each worker that has any.
abbrev pub group_row : List Event → ℕ → Bytes
group_row es w =
    decimal w ++ (b'|' ∷ (decimal (number (of_worker w) es) ++ (b'|' ∷ decimal (steps w es))))

abbrev pub group_rows : List Event → List ℕ → Bytes
group_rows es [] = []
group_rows es (w ∷ ws) = group_row es w ++ (10 ∷ group_rows es ws)

-- The tool printed this, with white space about it.
abbrev pub Prints : Result Bytes Bytes → Bytes → Type 0
Prints answer text = (out : Bytes) × (answer ≡ ok out) × (trim out ≡ text)

-- A token that a text of SQL can quote as it stands.
abbrev pub IsPlain : Bytes → Type 0
IsPlain token = All (λ b. (b == b'\'') ≡ false) token

-- How many events of the worker have the token.
abbrev pub CountsToken : (Bytes → Result Bytes Bytes) → Ledger → (w : ℕ) (token : Bytes) → Type 0
CountsToken raw_sql l w token =
    Prints
      (raw_sql (
        codes "SELECT count(*) FROM event WHERE worker = "
        ++ (decimal w ++ (codes " AND token = '" ++ (token ++ codes "'")))))
      (decimal (number (of_token w token) l.events))

-- The worker's inserts less its deletes, and its items.
abbrev pub Balances : (Bytes → Result Bytes Bytes) → Ledger → (w : ℕ) → Type 0
Balances raw_sql l w =
    Prints
      (raw_sql (
        codes "SELECT (SELECT count(*) FROM event WHERE worker = "
        ++ (decimal w
            ++ (codes " AND kind = 'insert') - (SELECT count(*) FROM event WHERE worker = "
                ++ (decimal w
                    ++ (codes " AND kind = 'delete'), (SELECT count(*) FROM item WHERE worker = "
                        ++ (decimal w ++ codes ")")))))))
      (difference (number (of_kind w (codes "insert")) l.events)
          (number (of_kind w (codes "delete")) l.events)
        ++ (b'|' ∷ decimal (number (λ v. v == w) l.items)))

-- What is printed for the texts that a claim has asked.
pub record IsAnswered (raw_sql : Bytes → Result Bytes Bytes) (l : Ledger) (c : Claim) : Type 0 where
  pub sample : IsPlain c.sample → CountsToken raw_sql l c.worker c.sample
  pub last : IsPlain c.last → CountsToken raw_sql l c.worker c.last
  pub balance : Balances raw_sql l c.worker

-- What is printed for the texts that do not depend on a claim.
pub record IsTruthful (raw_sql : Bytes → Result Bytes Bytes) (l : Ledger) : Type 0 where
  pub checked : Prints (raw_sql (codes "PRAGMA integrity_check;")) l.integrity
  pub versions : Bytes
  pub migrations :
      raw_sql (codes "SELECT version || ':' || name FROM schema_migration ORDER BY version;")
      ≡ ok versions
  pub seen :
      Prints
        (raw_sql (codes "SELECT count(*) FROM pragma_table_info('item') WHERE name = 'seen';"))
        (decimal (number (bytes_eq (codes "seen")) l.columns))
  pub groups : List ℕ
  pub complete : (w : ℕ) → number (of_worker w) l.events ≢ 0 → is_in w groups ≡ true
  pub occupied : (w : ℕ) → is_in w groups ≡ true → number (of_worker w) l.events ≢ 0
  pub small :
      All
        (λ w. (w < 2 ^ 64) × (number (of_worker w) l.events < 2 ^ 64) × (steps w l.events < 2 ^ 64))
        groups
  pub grouped :
      raw_sql (
        codes
          "SELECT worker, count(*), coalesce(sum(seq), 0) FROM event GROUP BY worker ORDER BY worker;")
      ≡ ok (group_rows l.events groups)

-- What a worker reported is what the storage holds of it.
pub record IsBorneOut (l : Ledger) (c : Claim) : Type 0 where
  pub any : number (of_worker c.worker) l.events ≢ 0
  pub writes : number (of_worker c.worker) l.events ≡ c.writes
  pub sum_seq : steps c.worker l.events ≡ c.sum_seq
  pub sample : number (of_token c.worker c.sample) l.events ≢ 0
  pub last : number (of_token c.worker c.last) l.events ≢ 0
  pub items :
      number (of_kind c.worker (codes "insert")) l.events
      ≡ number (λ v. v == c.worker) l.items + number (of_kind c.worker (codes "delete")) l.events

-- The files are what they should be, the storage is whole and `item` has its column `seen`, and what
-- every worker reported is borne out.
pub record IsInOrder (l : Ledger) (header stub : Bytes) (claims : List Claim) : Type 0 where
  pub file : starts_with (codes "SQLite format 3") header ≡ true
  pub kept : starts_with (codes "SQLITEBROKER1\n") stub ≡ true
  pub whole : l.integrity ≡ codes "ok"
  pub migrated : number (bytes_eq (codes "seen")) l.columns ≡ 1
  pub reported : All (IsBorneOut l) claims
