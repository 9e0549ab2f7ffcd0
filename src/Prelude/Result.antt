-- ===== src/Prelude/Result.antt =====
-- Rust's `Result<A, E>`, and `?`.
pub data Result {ℓ κ} (E : Type κ) (A : Type ℓ) : Type (ℓ ⊔ κ) where
  ok : A → Result E A
  err : E → Result E A

infixl 5 ◌>>=◌ ◌>>◌
abbrev pub ◌>>=◌ {ℓ κ} : {A B : Type ℓ} {E : Type κ} → Result E A → (A → Result E B) → Result E B
ok a >>= f = f a
err e >>= f = err e

abbrev pub ◌>>◌ {ℓ κ} : {A B : Type ℓ} {E : Type κ} → Result E A → Result E B → Result E B
m >> k = m >>= λ _. k
