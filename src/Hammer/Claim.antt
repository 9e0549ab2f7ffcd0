-- ===== src/Hammer/Claim.antt =====
-- `Claim` and `parse_claim` of server/src/hammer.rs.
pub mod Words
pub mod RoundTrip
use sqlite_broker.Prelude.{
  ℕ, ◌+◌, ◌*◌, ◌-◌, ◌%◌, ◌^◌, ◌==◌, leb, ltb, ◌&&◌, not, if◌then◌else◌, Bool, List, [], ◌∷◌, ◌++◌,
  Option, none, some, is_empty, bytes_eq,
}
use sqlite_broker.Prelude.Result.{Result, ok, err, ◌>>=◌}
use sqlite_broker.Text.Search.{split_once}
use sqlite_broker.Text.Unsigned.{parse_u64}
use sqlite_broker.Text.{Bytes, codes}
use sqlite_broker.Text.Decimal.{decimal}
use sqlite_broker.Text.Space.{split_whitespace}
use sqlite_broker.Hammer.Statements.{format}

pub record Claim : Type 0 where
  pub worker : ℕ
  pub ops : ℕ
  pub reads : ℕ
  pub writes : ℕ
  pub inserts : ℕ
  pub updates : ℕ
  pub deletes : ℕ
  pub sum_seq : ℕ
  pub sample : Bytes
  pub last : Bytes

abbrev pub empty_claim : Claim
empty_claim = record {
  worker = 0;
  ops = 0;
  reads = 0;
  writes = 0;
  inserts = 0;
  updates = 0;
  deletes = 0;
  sum_seq = 0;
  sample = [];
  last = [];
}

-- One `key=value` of the line.
unfoldable pub with_field : (key value : Bytes) → Claim → Result Bytes Claim
with_field key value c =
    if bytes_eq key (codes "worker")
    then (parse_u64 value >>= λ n. ok (record c { worker = n }))
    else if bytes_eq key (codes "ops")
    then (parse_u64 value >>= λ n. ok (record c { ops = n }))
    else if bytes_eq key (codes "reads")
    then (parse_u64 value >>= λ n. ok (record c { reads = n }))
    else if bytes_eq key (codes "writes")
    then (parse_u64 value >>= λ n. ok (record c { writes = n }))
    else if bytes_eq key (codes "inserts")
    then (parse_u64 value >>= λ n. ok (record c { inserts = n }))
    else if bytes_eq key (codes "updates")
    then (parse_u64 value >>= λ n. ok (record c { updates = n }))
    else if bytes_eq key (codes "deletes")
    then (parse_u64 value >>= λ n. ok (record c { deletes = n }))
    else if bytes_eq key (codes "sum_seq")
    then (parse_u64 value >>= λ n. ok (record c { sum_seq = n }))
    else if bytes_eq key (codes "sample")
    then ok (record c { sample = value })
    else if bytes_eq key (codes "last")
    then ok (record c { last = value })
    else ok c

unfoldable pub with_part : Bytes → Claim → Result Bytes Claim
unfolding with_field split_once
with_part part c = elim (split_once b'=' part) [
  | none ↦ ok c
  | some (key, value) ↦ with_field key value c
]

unfoldable pub with_parts : List Bytes → Claim → Result Bytes Claim
unfolding with_part
with_parts [] c = ok c
with_parts (part ∷ parts) c = (with_part part c >>= with_parts parts)

-- `claim.reads + claim.writes != claim.ops`, by the sum of a build without overflow checks.
unfoldable pub checked_claim : Claim → Result Bytes Claim
unfolding format
checked_claim c =
    if (c.reads + c.writes) % 2 ^ 64 == c.ops
    then ok c
    else err (format (codes "worker " ∷ decimal c.worker ∷ codes " reads+writes != ops" ∷ []))

unfoldable pub parse_claim : Bytes → Result Bytes Claim
unfolding with_parts checked_claim split_whitespace
parse_claim line = (with_parts (split_whitespace line) empty_claim >>= checked_claim)
