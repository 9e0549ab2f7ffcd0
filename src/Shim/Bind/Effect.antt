-- ===== src/Shim/Bind/Effect.antt =====
-- What a bind function leaves behind.
use sqlite_broker.Prelude.{
  ℕ, ◌≡◌, refl, sym, ap, ◌∙◌, arith, ltb, ℤ, pos, negsuc, int_eq, int_eq_iff, is_negative, Bool,
  true, false, if◌then◌else◌, List, [], ◌∷◌, Option, none, some, Bool-cases, inl, inr, if-both,
}
use sqlite_broker.Protocol.Message.{Cell, null, int, real, blob, Param}
use sqlite_broker.Protocol.Base64.{encode_base64}
use sqlite_broker.Shim.State.{ProxyStmt, sqlite_ok, sqlite_misuse, sqlite_toobig}
use sqlite_broker.Shim.Bind.{
  upsert, upsert_param, Binding, is_closed_to, bind_value, text_value, bind_text, blob_value,
  is_missing, bind_blob, zeros, max_zeroblob, bind_zeroblob, clear_bindings, BindCall, double,
  int64, null_at, text_at, blob_at, zeroblob, clear, bind, release_destructor,
}

-- The value of the parameter with this index.
abbrev pub bound_at : ℤ → List Param → Option Cell
bound_at j [] = none
bound_at j (p ∷ ps) = if int_eq p.index j then some p.value else bound_at j ps

module _ {A : Type 0} (x y z : A) where
  same_test : (a b : Bool) → a ≡ b → (if a then x else z) ≡ (if b then x else (if a then y else z))
  same_test true true h = refl
  same_test false false h = refl
  same_test true false h = absurd (cc)
  same_test false true h = absurd (cc)

  other_test :
      (a b : Bool)
      → (a ≡ true → b ≡ false)
      → (if a then y else (if b then x else z)) ≡ (if b then x else (if a then y else z))
  other_test true true h = let k : true ≡ false = h refl in absurd (cc)
  other_test true false h = refl
  other_test false true h = refl
  other_test false false h = refl

-- Two indices that a third tells apart.
int_eq-apart : (a i j : ℤ) → int_eq a i ≡ false → int_eq a j ≡ true → int_eq i j ≡ false
int_eq-apart a i j other here = elim (Bool-cases (int_eq i j)) [
  | inl same ↦
      let e = (int_eq_iff a j).0 here in
      let f = (int_eq_iff i j).0 same in
      let k : int_eq a i ≡ true = (int_eq_iff a i).1 (e ∙ sym f) in absurd (cc)
  | inr distinct ↦ distinct
]

bound_at-upsert :
    (i j : ℤ) (v : Cell) (ps : List Param)
    → bound_at j (upsert i v ps) ≡ (if int_eq i j then some v else bound_at j ps)
unfolding upsert
bound_at-upsert i j v [] = refl
bound_at-upsert i j v (p ∷ ps) = elim (Bool-cases (int_eq p.index i)) [
  | inl same ↦
      let e : p.index ≡ i = (int_eq_iff p.index i).0 same in
      rw same (
        same_test (some v) (some p.value) (bound_at j ps) (int_eq p.index j) (int_eq i j)
          (ap (λ (k : ℤ). int_eq k j) e))
  | inr other ↦
      rw (other, bound_at-upsert i j v ps)
        (other_test (some v) (some p.value) (bound_at j ps) (int_eq p.index j) (int_eq i j)
          (int_eq-apart p.index i j other))
]

-- The parameters after a call that is answered `SQLITE_OK`.
abbrev pub set_at : ℤ → Cell → ℤ → List Param → Option Cell
set_at i v j ps = if int_eq i j then some v else bound_at j ps

abbrev pub zero_count : ℤ → ℕ
zero_count (pos n) = n
zero_count n = 0

abbrev pub after_bind : BindCall → ℤ → List Param → Option Cell
after_bind (double i v) j ps = set_at i (real v) j ps
after_bind (int64 i v) j ps = set_at i (int v) j ps
after_bind (null_at i) j ps = set_at i null j ps
after_bind (text_at i v n dtor) j ps = set_at i (text_value v n) j ps
after_bind (blob_at i v n dtor) j ps = set_at i (blob (encode_base64 (blob_value v n))) j ps
after_bind (zeroblob i n) j ps = set_at i (blob (encode_base64 (zeros (zero_count n)))) j ps
after_bind clear j ps = none

-- A refusal changes nothing, and `SQLITE_OK` leaves the parameters like this.
abbrev pub Binds : (ℤ → List Param → Option Cell) → ProxyStmt → Binding → Type 0
Binds want p b =
    (int_eq b.rc sqlite_ok ≡ false → b.after ≡ p)
    × (int_eq b.rc sqlite_ok ≡ true → (j : ℤ) → bound_at j b.after.params ≡ want j p.params)

module _ (want : ℤ → List Param → Option Cell) (p : ProxyStmt) where
  -- An answer that is not `SQLITE_OK`, and no change.
  refused-Binds :
      (code : ℤ) (released : Bool)
      → int_eq code sqlite_ok ≡ false
      → Binds want p (record { rc = code; released = released; after = p })
  refused-Binds code released bad =
      ((λ h. refl), (λ good. let e : false ≡ true = sym bad ∙ good in absurd (cc)))

module _ (i : ℤ) (v : Cell) (p : ProxyStmt) where
  set-Binds :
      (released : Bool)
      → Binds
          (set_at i v)
          p
          (record { rc = sqlite_ok; released = released; after = upsert_param p i v })
  set-Binds released = (
    (λ bad. let e : true ≡ false = bad in absurd (cc)),
    (λ good j. bound_at-upsert i j v p.params),
  )

  bind_value-Binds : Binds (set_at i v) p (bind_value i v p)
  unfolding bind_value
  bind_value-Binds =
      if-both (Binds (set_at i v) p) (is_closed_to p i)
        (λ shut. refused-Binds (set_at i v) p sqlite_misuse false refl) (λ free. set-Binds false)

-- Whatever bind function is called, the statement is as it was if the answer is not `SQLITE_OK`, and if
-- it is, the parameter at the index has the new value and the others are as they were; after
-- `sqlite3_clear_bindings` there are none.
pub bind-Binds : (c : BindCall) (p : ProxyStmt) → Binds (after_bind c) p (bind c p)
unfolding bind bind_text bind_blob bind_zeroblob clear_bindings
bind-Binds (double i v) p = bind_value-Binds i (real v) p
bind-Binds (int64 i v) p = bind_value-Binds i (int v) p
bind-Binds (null_at i) p = bind_value-Binds i null p
bind-Binds (text_at i v n dtor) p =
    let want = set_at i (text_value v n) in
    if-both (Binds want p) (is_closed_to p i)
      (λ shut. refused-Binds want p sqlite_misuse false refl)
      (λ free. set-Binds i (text_value v n) p (release_destructor dtor v))
bind-Binds (blob_at i v n dtor) p =
    let value = blob (encode_base64 (blob_value v n)) in
    let want = set_at i value in
    if-both (Binds want p) (is_closed_to p i)
      (λ shut. refused-Binds want p sqlite_misuse false refl)
      (λ free.
        if-both (Binds want p) (is_missing v n)
          (λ gone. refused-Binds want p sqlite_misuse false refl)
          (λ there.
            if-both (Binds want p) (is_negative n)
              (λ less. refused-Binds want p sqlite_toobig (release_destructor dtor v) refl)
              (λ fits. set-Binds i value p (release_destructor dtor v))))
bind-Binds (zeroblob i (pos n)) p =
    let value = blob (encode_base64 (zeros n)) in
    let want = set_at i value in
    if-both (Binds want p) (is_closed_to p i)
      (λ shut. refused-Binds want p sqlite_misuse false refl)
      (λ free.
        if-both (Binds want p) (ltb max_zeroblob n)
          (λ big. refused-Binds want p sqlite_toobig false refl)
          (λ fits. set-Binds i value p false))
bind-Binds (zeroblob i (negsuc n)) p =
    let want = set_at i (blob (encode_base64 (zeros 0))) in
    if-both (Binds want p) (is_closed_to p i)
      (λ shut. refused-Binds want p sqlite_misuse false refl)
      (λ free. refused-Binds want p sqlite_toobig false refl)
bind-Binds clear p = ((λ bad. let e : true ≡ false = bad in absurd (cc)), (λ good j. refl))

-- Binding leaves the statement's connection as it is.
pub bind-db : (c : BindCall) (p : ProxyStmt) → (bind c p).after.db ≡ p.db
unfolding bind bind_value bind_text bind_blob bind_zeroblob clear_bindings
bind-db (double i v) p = ground arith
bind-db (int64 i v) p = ground arith
bind-db (null_at i) p = ground arith
bind-db (text_at i v n dtor) p = ground arith
bind-db (blob_at i v n dtor) p = ground arith
bind-db (zeroblob i (pos n)) p = ground arith
bind-db (zeroblob i (negsuc n)) p = ground arith
bind-db clear p = refl
