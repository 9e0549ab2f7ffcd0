-- ===== src/Shim/Proxy/Lists.antt =====
-- What is on a connection's list after `link_stmt` and `unlink_stmt`.
use sqlite_broker.Prelude.{
  ℕ, ◌==◌, ◌≡◌, refl, arith, true, false, ◌||◌, List, [], ◌∷◌, ◌++◌, has, is_empty, Bool-cases, inl,
  inr, if◌then◌else◌,
}
use sqlite_broker.Shim.Proxy.{without}

pub has-append_one :
    (j stmt : ℕ) (xs : List ℕ) → has j (xs ++ (stmt ∷ [])) ≡ (has j xs || (stmt == j))
has-append_one j stmt [] = ground arith
has-append_one j stmt (x ∷ xs) = ground (arith, has-append_one j stmt xs)

pub has-without :
    (j stmt : ℕ) (xs : List ℕ) → has j (without stmt xs) ≡ (if stmt == j then false else has j xs)
unfolding without
has-without j stmt [] = ground arith
has-without j stmt (x ∷ xs) = ground (arith, has-without j stmt xs)

pub has-without_other :
    (j stmt : ℕ) (xs : List ℕ) → (stmt == j) ≡ false → has j (without stmt xs) ≡ has j xs
has-without_other j stmt xs other = rw (has-without j stmt xs, other) refl

pub has-without_cases :
    (j stmt : ℕ) (xs : List ℕ)
    → has j (without stmt xs) ≡ true
    → ((stmt == j) ≡ false) × (has j xs ≡ true)
has-without_cases j stmt xs h = elim (Bool-cases (stmt == j)) [
  | inl same ↦ let k = rw (has-without j stmt xs, same) at h in absurd (cc)
  | inr other ↦ (other, (rw (has-without j stmt xs, other) at h))
]

pub is_empty-has : (j : ℕ) (xs : List ℕ) → is_empty xs ≡ true → has j xs ≡ false
is_empty-has j [] h = refl
is_empty-has j (x ∷ xs) h = cc
