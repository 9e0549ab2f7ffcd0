-- ===== src/Hammer/Load/Choice.antt =====
-- A write is always chosen: `live[..]` and `live.pop().unwrap()` do not panic.
use sqlite_broker.Prelude.{
  ℕ, zero, suc, ◌+◌, ◌-◌, ◌^◌, ◌<◌, ◌==◌, lt→ltb, ◌≡◌, refl, sym, ap, arith, false, ◌||◌, List, [],
  ◌∷◌, All, All-append, Option, none, some, length, get_elem?, is_empty, or_false, if-both,
}
use mathlib.Core.Path.{subst}
use sqlite_broker.Text.{Bytes, codes}
use sqlite_broker.Text.Decimal.{decimal}
use sqlite_broker.Hammer.Rng.{below}
use sqlite_broker.Hammer.Rng.Live.{IsLive, below-IsLive}
use sqlite_broker.Hammer.Claim.Words.{IsGraphic, decimal-IsGraphic}
use sqlite_broker.Hammer.Statements.{format, fresh_name}
use sqlite_broker.Hammer.Load.{
  Kind, inserts, updates, deletes, Write, Load, live_name, inserting, deleting, updating_name,
  updating, choose_write,
}

abbrev pub IsName : Bytes → Type 0
IsName xs = (is_empty xs ≡ false) × All IsGraphic xs

fresh_name-IsName : (worker step : ℕ) → IsName (fresh_name worker step)
unfolding fresh_name format
fresh_name-IsName worker step = (
  refl,
  All-append IsGraphic (codes "w") _ (omega arith) (
      All-append IsGraphic (decimal worker) _ (decimal-IsGraphic worker) (
        All-append IsGraphic (codes "-s") _ (omega arith)
          (All-append IsGraphic (decimal step) [] (decimal-IsGraphic step) tt))),
)

-- How many of each kind a write is.
abbrev pub inserted : Kind → ℕ
inserted inserts = 1
inserted _ = 0

abbrev pub updated : Kind → ℕ
updated updates = 1
updated _ = 0

abbrev pub deleted : Kind → ℕ
deleted deletes = 1
deleted _ = 0

-- The names that may be updated or deleted are those that were inserted and not deleted.
pub record IsSteady (l : Load) : Type 0 where
  pub rng : IsLive l.rng
  pub names : All IsName l.live
  pub balance : l.insert_count ≡ l.delete_count + length l.live

-- What a choice changes.
pub record Chosen (step : ℕ) (l : Load) (w : Write) (l' : Load) : Type 0 where
  pub steady : IsSteady l'
  pub at : w.step ≡ step
  pub name : IsName w.recorded
  pub insert_more : l'.insert_count ≡ l.insert_count + inserted w.kind
  pub update_more : l'.update_count ≡ l.update_count + updated w.kind
  pub delete_more : l'.delete_count ≡ l.delete_count + deleted w.kind
  pub executed : l'.executed ≡ l.executed
  pub reads : l'.reads ≡ l.reads
  pub sum_seq : l'.sum_seq ≡ l.sum_seq
  pub sample : l'.sample ≡ l.sample
  pub last : l'.last ≡ l.last

-- There is a choice, and this is what it changes.
abbrev pub Chooses : ℕ → Load → Option (Write × Load) → Type 0
Chooses step l none = ⊥
Chooses step l (some (w, l')) = Chosen step l w l'

inserting-Chosen :
    (worker step : ℕ) (l : Load) → IsSteady l → Chooses step l (some (inserting worker step l))
unfolding inserting
inserting-Chosen worker step l s = record {
  steady = record {
    rng = s.rng;
    names = (fresh_name-IsName worker step, s.names);
    balance = omega (arith, s.balance);
  };
  at = refl;
  name = fresh_name-IsName worker step;
  insert_more = refl;
  update_more = omega arith;
  delete_more = omega arith;
  executed = refl;
  reads = refl;
  sum_seq = refl;
  sample = refl;
  last = refl;
}

deleting-Chosen :
    (step : ℕ) (live : List Bytes) (l : Load)
    → l.live ≡ live
    → is_empty live ≡ false
    → IsSteady l
    → Chooses step l (deleting step live l)
unfolding deleting
deleting-Chosen step [] l e some_ s = absurd (cc)
deleting-Chosen step (name ∷ live) l e some_ s =
    let names : All IsName (name ∷ live) = rw e at s.names in
    record {
      steady = record {
        rng = s.rng;
        names = names.1;
        balance = omega (arith, s.balance, ap length e);
      };
      at = refl;
      name = names.0;
      insert_more = omega arith;
      update_more = omega arith;
      delete_more = refl;
      executed = refl;
      reads = refl;
      sum_seq = refl;
      sample = refl;
      last = refl;
    }

All-get :
    (xs : List Bytes) (i : ℕ)
    → i < length xs
    → All IsName xs
    → (x : Bytes) × (get_elem? xs i ≡ some x) × IsName x
All-get [] i h all = absurd (omega arith)
All-get (x ∷ xs) zero h all = (x, refl, all.0)
All-get (x ∷ xs) (suc i) h all = All-get xs i (omega arith) all.1

nonempty : (xs : List Bytes) → is_empty xs ≡ false → 0 < length xs
nonempty [] h = absurd (cc)
nonempty (x ∷ xs) h = omega arith

live_name-some :
    (xs : List Bytes) (i : ℕ)
    → i < length xs
    → All IsName xs
    → (x : Bytes) × (live_name i xs ≡ some x) × IsName x
live_name-some xs i h all =
    let (name, there, is) = All-get xs (length xs - 1 - i) (omega arith) all in
    (name, rw (lt→ltb i (length xs) h) there, is)

updating_name-Chosen :
    (step : ℕ) (name : Bytes) (l : Load)
    → IsName name
    → IsSteady l
    → Chooses step l (updating_name step (some name) l)
unfolding updating_name
updating_name-Chosen step name l is s = record {
  steady = record { rng = s.rng; names = s.names; balance = s.balance };
  at = refl;
  name = is;
  insert_more = omega arith;
  update_more = refl;
  delete_more = omega arith;
  executed = refl;
  reads = refl;
  sum_seq = refl;
  sample = refl;
  last = refl;
}

-- The random number drawn for a choice is no part of what `Chosen` compares.
redrawn :
    (step rng : ℕ) (l : Load) (o : Option (Write × Load))
    → Chooses step (record l { rng = rng }) o
    → Chooses step l o
redrawn step rng l none c = c
redrawn step rng l (some (w, l')) c = record {
  steady = c.steady;
  at = c.at;
  name = c.name;
  insert_more = c.insert_more;
  update_more = c.update_more;
  delete_more = c.delete_more;
  executed = c.executed;
  reads = c.reads;
  sum_seq = c.sum_seq;
  sample = c.sample;
  last = c.last;
}

updating-Chosen :
    (step : ℕ) (l : Load)
    → is_empty l.live ≡ false
    → length l.live < 2 ^ 32
    → IsSteady l
    → Chooses step l (updating step l)
unfolding updating
updating-Chosen step l some_ small s =
    let (live, inside) = below-IsLive l.rng (length l.live) s.rng (nonempty l.live some_) small in
    let (at, rng) = below l.rng (length l.live) in
    let (name, there, is) = live_name-some l.live at inside s.names in
    redrawn step rng l _ (
      subst
        (λ (o : Option Bytes).
          Chooses step (record l { rng = rng }) (updating_name step o (record l { rng = rng })))
        (sym there)
        (updating_name-Chosen step name (record l { rng = rng }) is
          (record { rng = live; names = s.names; balance = s.balance })))

-- While the inserts are the deletes and the names that may be chosen, and these are fewer than 2^32: a
-- step chooses a write, so that neither the index nor the unwrap panics, counts it as what it is, and
-- the inserts are the deletes and the names still.
pub choose_write-Chosen :
    (worker step : ℕ) (l : Load)
    → IsSteady l
    → length l.live < 2 ^ 32
    → Chooses step l (choose_write worker step l)
unfolding choose_write
choose_write-Chosen worker step l s small =
    let (live, inside) = below-IsLive l.rng 3 s.rng (omega arith) (omega arith) in
    let (kind, rng) = below l.rng 3 in
    let steady : IsSteady (record l { rng = rng }) = record {
      rng = live;
      names = s.names;
      balance = s.balance;
    } in
    redrawn step rng l _ (
      if-both (Chooses step (record l { rng = rng })) (kind == 0 || is_empty l.live)
        (λ h. inserting-Chosen worker step (record l { rng = rng }) steady)
        (λ h.
          let some_ = (or_false (kind == 0) (is_empty l.live) h).1 in
          if-both (Chooses step (record l { rng = rng })) (kind == 1)
            (λ k. updating-Chosen step (record l { rng = rng }) some_ small steady)
            (λ k. deleting-Chosen step l.live (record l { rng = rng }) refl some_ steady)))
