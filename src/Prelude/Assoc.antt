-- ===== src/Prelude/Assoc.antt =====
-- A `HashMap` with numbers for keys (sessions of the broker, handles of the shim), as a list of entries.
use sqlite_broker.Prelude.{
  sym, ap, ◌∙◌, true, ℕ, ◌==◌, ◌≡◌, refl, arith, false, List, [], ◌∷◌, if◌then◌else◌, Option, none,
  some, ◌⊎◌, inl, inr, Bool-cases, ==_iff, ==_self,
}

abbrev pub Assoc {ℓ} : Type ℓ → Type ℓ
Assoc C = List (ℕ × C)

module _ {ℓ} {C : Type ℓ} where
  unfoldable pub get : ℕ → Assoc C → Option C
  get id [] = none
  get id ((i, c) ∷ m) = if i == id then some c else get id m

  unfoldable pub remove : ℕ → Assoc C → Assoc C
  remove id [] = []
  remove id ((i, c) ∷ m) = let rest = remove id m in if i == id then rest else (i, c) ∷ rest

  unfoldable pub insert : ℕ → C → Assoc C → Assoc C
  insert id c m = (id, c) ∷ remove id m

  pub get-remove :
      (id j : ℕ) (m : Assoc C) → get j (remove id m) ≡ (if id == j then none else get j m)
  unfolding get remove
  get-remove id j [] = ground arith
  get-remove id j ((i, c) ∷ m) = ground (arith, get-remove id j m)

  pub get-insert :
      (id j : ℕ) (c : C) (m : Assoc C)
      → get j (insert id c m) ≡ (if id == j then some c else get j m)
  unfolding get insert
  get-insert id j c m = ground (arith, get-remove id j m)

  pub get-insert_same : (id : ℕ) (c : C) (m : Assoc C) → get id (insert id c m) ≡ some c
  get-insert_same id c m = rw (get-insert id id c m, ==_self id) refl

  -- What a map with an entry more holds is the entry or stood there before.
  pub get-insert_cases :
      (id j : ℕ) (c x : C) (m : Assoc C)
      → get j (insert id c m) ≡ some x
      → ((id ≡ j) × (c ≡ x)) ⊎ (((id == j) ≡ false) × (get j m ≡ some x))
  get-insert_cases id j c x m h = elim (Bool-cases (id == j)) [
    | inl same ↦ inl ((==_iff id j).0 same, (let k = rw (get-insert id j c m, same) at h in cc))
    | inr other ↦ inr (other, (rw (get-insert id j c m, other) at h))
  ]

  pub get-insert_other :
      (id j : ℕ) (c : C) (m : Assoc C) → (id == j) ≡ false → get j (insert id c m) ≡ get j m
  get-insert_other id j c m other = rw (get-insert id j c m, other) refl

  pub get-remove_other :
      (id j : ℕ) (m : Assoc C) → (id == j) ≡ false → get j (remove id m) ≡ get j m
  get-remove_other id j m other = rw (get-remove id j m, other) refl

  pub get-remove_cases :
      (id j : ℕ) (x : C) (m : Assoc C)
      → get j (remove id m) ≡ some x
      → ((id == j) ≡ false) × (get j m ≡ some x)
  get-remove_cases id j x m h = elim (Bool-cases (id == j)) [
    | inl same ↦ let k = rw (get-remove id j m, same) at h in absurd (cc)
    | inr other ↦ (other, (rw (get-remove id j m, other) at h))
  ]

pub some_eq {ℓ} : {A : Type ℓ} {o : Option A} {a b : A} → o ≡ some a → o ≡ some b → a ≡ b
some_eq h k = cc

pub get_eq {ℓ} :
    {C : Type ℓ} (i j : ℕ) {a b : C} (m : Assoc C)
    → get i m ≡ some a
    → get j m ≡ some b
    → (i == j) ≡ true
    → a ≡ b
get_eq i j m h k e = some_eq h (ap (λ (n : ℕ). get n m) ((==_iff i j).0 e) ∙ k)

pub get_at {ℓ} :
    {C : Type ℓ} {i j : ℕ} {a : C} (m : Assoc C) → i ≡ j → get i m ≡ some a → get j m ≡ some a
get_at m e h = ap (λ (n : ℕ). get n m) (sym e) ∙ h

pub not_there {ℓ} :
    {C : Type ℓ} (i j : ℕ) {b : C} (m : Assoc C)
    → get i m ≡ none
    → get j m ≡ some b
    → (i == j) ≡ true
    → ⊥
not_there i j {b} m h k e =
    let r : none ≡ some b = sym h ∙ (ap (λ (n : ℕ). get n m) ((==_iff i j).0 e) ∙ k) in absurd (cc)

-- An address that is not in use is none that is.
pub not_same {ℓ} :
    {C : Type ℓ} (i j : ℕ) {b : C} (m : Assoc C)
    → get i m ≡ none
    → get j m ≡ some b
    → (i == j) ≡ false
not_same i j m h k = elim (Bool-cases (i == j)) [
  | inl same ↦ absurd (not_there i j m h k same)
  | inr other ↦ other
]
