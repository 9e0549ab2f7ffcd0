-- ===== src/Shim/Rows/Params.antt =====
-- `param_index` finds the parameter with that name.
use sqlite_broker.Prelude.{
  ℕ, zero, suc, ◌+◌, ◌<◌, ◌≡◌, ◌⊎◌, inl, inr, refl, ap, ◌∙◌, arith, true, List, [], ◌∷◌, ◌++◌,
  Option, none, some, get_elem?, bytes_eq, Bool-cases, Option-cases, if-both,
}
use sqlite_broker.Text.{Bytes, codes}
use sqlite_broker.Text.Utf8.{from_utf8_lossy}
use sqlite_broker.Shim.State.{ProxyStmt}
use sqlite_broker.Shim.Rows.{name_position, prefixed_position, is_prefixed, param_index}

-- At this place, counted from 0, stands the name that is asked for.
pub record IsName (names : List (Option Bytes)) (query : Bytes) (k : ℕ) : Type 0 where
  pub name : Bytes
  pub there : get_elem? names k ≡ some (some name)
  pub is_query : bytes_eq (from_utf8_lossy name) query ≡ true

IsName-later :
    (o : Option Bytes) (names : List (Option Bytes)) (query : Bytes) (k : ℕ)
    → IsName names query k
    → IsName (o ∷ names) query (suc k)
IsName-later o names query k h = record { name = h.name; there = h.there; is_query = h.is_query }

-- What was found stands where the search says.
name_position-IsName :
    (query : Bytes) (from i : ℕ) (names : List (Option Bytes))
    → name_position query from names ≡ some i
    → (k : ℕ) × (i ≡ from + k) × IsName names query k
unfolding name_position
name_position-IsName query from i [] h = absurd (cc)
name_position-IsName query from i (none ∷ names) h =
    let (k, e, n) = name_position-IsName query (suc from) i names h in
    (suc k, omega (arith, e), IsName-later none names query k n)
name_position-IsName query from i (some name ∷ names) h =
    elim (Bool-cases (bytes_eq (from_utf8_lossy name) query)) [
      | inl same ↦
          let e : some from ≡ some i = rw same at h in
          let f : from ≡ i = cc in
          (0, omega (arith, f), record { name = name; there = refl; is_query = same })
      | inr other ↦
          let (k, e, n) = name_position-IsName query (suc from) i names (rw other at h) in
          (suc k, omega (arith, e), IsName-later (some name) names query k n)
    ]

-- The first place with the name is found.
name_position-first :
    (query : Bytes) (from k : ℕ) (names : List (Option Bytes))
    → IsName names query k
    → ((j : ℕ) → j < k → IsName names query j → ⊥)
    → name_position query from names ≡ some (from + k)
unfolding name_position
name_position-first query from k [] n first = let e = n.there in absurd (cc)
name_position-first query from zero (none ∷ names) n first = let e = n.there in absurd (cc)
name_position-first query from (suc k) (none ∷ names) n first =
    name_position-first query (suc from) k names
      (record { name = n.name; there = n.there; is_query = n.is_query })
      (λ j less m. first (suc j) (omega arith) (IsName-later none names query j m))
    ∙ ap some (omega arith)
name_position-first query from zero (some name ∷ names) n first =
    let e : some (some name) ≡ some (some n.name) = n.there in
    let f : name ≡ n.name = cc in
    let same : bytes_eq (from_utf8_lossy name) query ≡ true =
      ap (λ (b : Bytes). bytes_eq (from_utf8_lossy b) query) f ∙ n.is_query in
    rw same (ap some (omega arith))
name_position-first query from (suc k) (some name ∷ names) n first =
    elim (Bool-cases (bytes_eq (from_utf8_lossy name) query)) [
      | inl same ↦
          absurd (first 0 (omega arith) (record { name = name; there = refl; is_query = same }))
      | inr other ↦ rw other (
          name_position-first query (suc from) k names
            (record { name = n.name; there = n.there; is_query = n.is_query })
            (λ j less m. first (suc j) (omega arith) (IsName-later (some name) names query j m))
          ∙ ap some (omega arith))
    ]

-- The forms in which a name may be asked for.
abbrev pub prefixes : List Bytes
prefixes = codes ":" ∷ codes "@" ∷ codes "$" ∷ []

-- The query itself or with a prefix in front of it.
pub data IsForm (query : Bytes) : Bytes → Type 0 where
  plain : IsForm query query
  prefixed :
      (i : ℕ) (prefix : Bytes) → get_elem? prefixes i ≡ some prefix → IsForm query (prefix ++ query)

-- The index, counted from 1, is that of a parameter with the name in one of these forms.
abbrev pub IsIndex : List (Option Bytes) → Bytes → ℕ → Type 0
IsIndex names query i =
    (k : ℕ) × (i ≡ suc k) × ((form : Bytes) × IsForm query form × IsName names form k)

found-IsIndex :
    (names : List (Option Bytes)) (query form : Bytes) (i : ℕ)
    → IsForm query form
    → name_position form 1 names ≡ some i
    → IsIndex names query i
found-IsIndex names query form i f h =
    let (k, e, n) = name_position-IsName form 1 i names h in (k, omega (arith, e), (form, f, n))

-- `more` prefixes were tried before these.
prefixed_position-IsIndex :
    (names : List (Option Bytes)) (query : Bytes) (more : ℕ) (ps : List Bytes)
    → ((i : ℕ) (prefix : Bytes)
        → get_elem? ps i ≡ some prefix
        → get_elem? prefixes (more + i) ≡ some prefix)
    → (prefixed_position ps query names ≡ 0)
      ⊎ IsIndex names query (prefixed_position ps query names)
unfolding prefixed_position
prefixed_position-IsIndex names query more [] h = inl refl
prefixed_position-IsIndex names query more (p ∷ ps) h =
    elim (Option-cases (name_position (p ++ query) 1 names)) [
      | inr (i, e) ↦
          rw (e, prefixed_position)
            (inr (found-IsIndex names query (p ++ query) i (prefixed (more + 0) p (h 0 p refl)) e))
      | inl e ↦
          rw (e, prefixed_position)
            (prefixed_position-IsIndex names query (suc more) ps (λ i prefix t.
              let n : suc more + i ≡ more + suc i = omega arith in
              ap (λ (m : ℕ). get_elem? prefixes m) n ∙ h (suc i) prefix t))
    ]

-- `sqlite3_bind_parameter_index` gives 0 or the index of a parameter that has the name as it was asked
-- for or behind one of `:`, `@` and `$`; where a parameter has the name as it was asked for, it gives the
-- index of the first such parameter.
pub param_index-IsIndex :
    (p : ProxyStmt) (query : Bytes)
    → ((param_index p query ≡ 0) ⊎ IsIndex p.param_names query (param_index p query))
      × ((k : ℕ)
          → IsName p.param_names query k
          → ((j : ℕ) → j < k → IsName p.param_names query j → ⊥)
          → param_index p query ≡ suc k)
unfolding param_index
param_index-IsIndex p query = (
  elim (Option-cases (name_position query 1 p.param_names)) [
    | inr (i, e) ↦ rw (e, param_index) (inr (found-IsIndex p.param_names query query i plain e))
    | inl e ↦
        rw (e, param_index)
          (if-both (λ (n : ℕ). (n ≡ 0) ⊎ IsIndex p.param_names query n) (is_prefixed query)
            (λ shut. inl refl)
            (λ open_. prefixed_position-IsIndex p.param_names query 0 prefixes (λ i prefix t.
              let n : 0 + i ≡ i = omega arith in ap (λ (m : ℕ). get_elem? prefixes m) n ∙ t)))
  ],
  λ k n first.
      let e = name_position-first query 1 k p.param_names n first in
      rw (e, param_index) (omega arith),
)
