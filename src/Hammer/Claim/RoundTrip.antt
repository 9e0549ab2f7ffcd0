-- ===== src/Hammer/Claim/RoundTrip.antt =====
-- What `run_worker` prints, `parse_claim` reads.
use sqlite_broker.Prelude.{
  true, ℕ, ◌+◌, ◌%◌, ◌^◌, ◌<◌, ◌==◌, ◌≡◌, refl, ap, ◌∙◌, arith, List, [], ◌∷◌, ◌++◌, All,
  All-append,
}
use sqlite_broker.Prelude.Result.{ok}
use sqlite_broker.Text.{Bytes, codes, join}
use sqlite_broker.Text.Search.{split_once}
use sqlite_broker.Text.Decimal.{decimal}
use sqlite_broker.Text.Space.{words, split_whitespace}
use sqlite_broker.Hammer.Statements.{format}
use sqlite_broker.Hammer.Load.{Load, writes, report_line}
use sqlite_broker.Hammer.Claim.{
  Claim, empty_claim, with_field, with_part, with_parts, checked_claim, parse_claim,
}
use sqlite_broker.Hammer.Claim.Words.{
  IsGraphic, word-blank, word-end, decimal-IsGraphic, parse_below-decimal,
}

-- A text that `split_whitespace` leaves whole.
abbrev IsWord : Bytes → Type 0
IsWord [] = ⊥
IsWord (x ∷ xs) = All IsGraphic (x ∷ xs)

words-join : (parts : List Bytes) → All IsWord parts → words 0 [] (join (codes " ") parts) ≡ parts
unfolding join
words-join [] h = unfold words in refl
words-join ([] ∷ parts) h = absurd h.0
words-join ((x ∷ xs) ∷ []) h = word-end x xs h.0
words-join ((x ∷ xs) ∷ part ∷ parts) h =
    word-blank x xs (join (codes " ") (part ∷ parts)) h.0
    ∙ ap (◌∷◌ (x ∷ xs)) (words-join (part ∷ parts) h.1)

-- The fields of the line.
abbrev fields : (worker ops boot_ddl ms : ℕ) → Load → List Bytes
fields worker ops boot_ddl ms l =
    (codes "worker=" ++ decimal worker)
    ∷ (codes "ops=" ++ decimal ops)
    ∷ (codes "executed=" ++ decimal l.executed)
    ∷ (codes "reads=" ++ decimal l.reads)
    ∷ (codes "writes=" ++ decimal (writes l))
    ∷ (codes "inserts=" ++ decimal l.insert_count)
    ∷ (codes "updates=" ++ decimal l.update_count)
    ∷ (codes "deletes=" ++ decimal l.delete_count)
    ∷ (codes "sum_seq=" ++ decimal l.sum_seq)
    ∷ (codes "sample=" ++ l.sample)
    ∷ (codes "last=" ++ l.last)
    ∷ (codes "boot_ddl=" ++ decimal boot_ddl)
    ∷ codes "sql_err=0"
    ∷ codes "fatal=0"
    ∷ (codes "ms=" ++ (decimal ms ++ []))
    ∷ []

report_line-fields :
    (worker ops boot_ddl ms : ℕ) (l : Load)
    → report_line worker ops boot_ddl ms l ≡ join (codes " ") (fields worker ops boot_ddl ms l)
unfolding report_line format join
report_line-fields worker ops boot_ddl ms l = refl

numbered : (n : ℕ) (front : Bytes) → All IsGraphic front → All IsGraphic (front ++ decimal n)
numbered n front g = All-append IsGraphic front (decimal n) g (decimal-IsGraphic n)

fields-IsWord :
    (worker ops boot_ddl ms : ℕ) (l : Load)
    → All IsGraphic l.sample
    → All IsGraphic l.last
    → All IsWord (fields worker ops boot_ddl ms l)
fields-IsWord worker ops boot_ddl ms l sample last_ = (
  numbered worker (codes "worker=") (omega arith),
  (
    numbered ops (codes "ops=") (omega arith),
    (
      numbered l.executed (codes "executed=") (omega arith),
      (
        numbered l.reads (codes "reads=") (omega arith),
        (
          numbered (writes l) (codes "writes=") (omega arith),
          (
            numbered l.insert_count (codes "inserts=") (omega arith),
            (
              numbered l.update_count (codes "updates=") (omega arith),
              (
                numbered l.delete_count (codes "deletes=") (omega arith),
                (
                  numbered l.sum_seq (codes "sum_seq=") (omega arith),
                  (
                    All-append IsGraphic (codes "sample=") l.sample (omega arith) sample,
                    (
                      All-append IsGraphic (codes "last=") l.last (omega arith) last_,
                      (
                        numbered boot_ddl (codes "boot_ddl=") (omega arith),
                        (
                          omega arith,
                          (
                            omega arith,
                            (
                              All-append IsGraphic (codes "ms=") (decimal ms ++ []) (omega arith)
                                  (All-append IsGraphic (decimal ms) [] (decimal-IsGraphic ms) tt),
                              tt,
                            ),
                          ),
                        ),
                      ),
                    ),
                  ),
                ),
              ),
            ),
          ),
        ),
      ),
    ),
  ),
)

-- The claim that the line stands for.
abbrev pub claimed : (worker ops : ℕ) → Load → Claim
claimed worker ops l = record {
  worker = worker;
  ops = ops;
  reads = l.reads;
  writes = writes l;
  inserts = l.insert_count;
  updates = l.update_count;
  deletes = l.delete_count;
  sum_seq = l.sum_seq;
  sample = l.sample;
  last = l.last;
}

-- The numbers fit the types that hold them.
pub record Fits (worker ops : ℕ) (l : Load) : Type 0 where
  pub worker_fits : worker < 2 ^ 64
  pub ops_fits : ops < 2 ^ 32
  pub all_steps : l.reads + writes l ≡ ops
  pub sum_fits : l.sum_seq < 2 ^ 64

with_parts-fields :
    (worker ops boot_ddl ms : ℕ) (l : Load)
    → Fits worker ops l
    → with_parts (fields worker ops boot_ddl ms l) empty_claim ≡ ok (claimed worker ops l)
unfolding with_parts with_part split_once with_field
with_parts-fields worker ops boot_ddl ms l f =
    let all = f.all_steps in
    let few = f.ops_fits in
    rw (parse_below-decimal (2 ^ 64) worker f.worker_fits) (
      rw (parse_below-decimal (2 ^ 64) ops (omega arith)) (
        rw (parse_below-decimal (2 ^ 64) l.reads (omega arith)) (
          rw (parse_below-decimal (2 ^ 64) (writes l) (omega arith)) (
            rw (parse_below-decimal (2 ^ 64) l.insert_count (omega arith)) (
              rw (parse_below-decimal (2 ^ 64) l.update_count (omega arith)) (
                rw (parse_below-decimal (2 ^ 64) l.delete_count (omega arith))
                  (rw (parse_below-decimal (2 ^ 64) l.sum_seq f.sum_fits) refl)))))))

-- The line that a worker prints is read back as the claim of its counters, where they fit their types,
-- the reads and writes are all the steps, and the first and the last token are ASCII without blanks.
pub parse_claim-report_line :
    (worker ops boot_ddl ms : ℕ) (l : Load)
    → Fits worker ops l
    → All IsGraphic l.sample
    → All IsGraphic l.last
    → parse_claim (report_line worker ops boot_ddl ms l) ≡ ok (claimed worker ops l)
unfolding parse_claim split_whitespace checked_claim
parse_claim-report_line worker ops boot_ddl ms l f sample last_ =
    let all = f.all_steps in
    let few = f.ops_fits in
    let whole : ((l.reads + writes l) % 2 ^ 64 == ops) ≡ true = ground arith in
    let split : words 0 [] (report_line worker ops boot_ddl ms l)
        ≡ fields worker ops boot_ddl ms l =
      ap (words 0 []) (report_line-fields worker ops boot_ddl ms l)
      ∙ words-join (fields worker ops boot_ddl ms l)
          (fields-IsWord worker ops boot_ddl ms l sample last_) in
    rw split (rw (with_parts-fields worker ops boot_ddl ms l f) (rw whole refl))
