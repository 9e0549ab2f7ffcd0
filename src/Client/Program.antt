-- ===== src/Client/Program.antt =====
-- Steps of a client program: each acts on the world and gives an answer or an error. `none` is a step
-- that does not come back.
pub mod Post
use sqlite_broker.Prelude.{ℤ, List, Option, none, some}
use sqlite_broker.Prelude.Result.{Result, ok, err}
use sqlite_broker.Text.{Bytes}

abbrev pub Action {ℓ} : Type 0 → Type ℓ → Type ℓ
Action World A = World → Option (Result Bytes A × World)

-- `?` after a step.
abbrev pub after {ℓ κ} :
    {World : Type 0} {A : Type ℓ} {B : Type κ}
    → (A → Action World B)
    → Option (Result Bytes A × World)
    → Option (Result Bytes B × World)
after f none = none
after f (some (ok a, w)) = f a w
after f (some (err e, w)) = some (err e, w)

infixl 5 ◌>>=◌ ◌>>◌
abbrev pub ◌>>=◌ {ℓ κ} :
    {World : Type 0} {A : Type ℓ} {B : Type κ}
    → Action World A
    → (A → Action World B)
    → Action World B
◌>>=◌ m f w = after f (m w)

abbrev pub ◌>>◌ {ℓ κ} :
    {World : Type 0} {A : Type ℓ} {B : Type κ} → Action World A → Action World B → Action World B
m >> k = m >>= λ _. k

abbrev pub return {ℓ} : {World : Type 0} {A : Type ℓ} → A → Action World A
return a w = some (ok a, w)

abbrev pub failing {ℓ} : {World : Type 0} {A : Type ℓ} → Bytes → Action World A
failing e w = some (err e, w)

-- A step whose error is handled, not passed on.
abbrev pub handling {ℓ} :
    {World : Type 0} {A : Type ℓ}
    → (Bytes → Action World A)
    → Option (Result Bytes A × World)
    → Option (Result Bytes A × World)
handling handler none = none
handling handler (some (ok a, w)) = some (ok a, w)
handling handler (some (err e, w)) = handler e w

abbrev pub or_else {ℓ} :
    {World : Type 0} {A : Type ℓ} → Action World A → (Bytes → Action World A) → Action World A
or_else m handler w = handling handler (m w)

-- What the command line and the load generator use of `capi::Db`; `close` is its `drop`.
pub record DbClient : Type 1 where
  pub World : Type 0
  pub Db : Type 0
  pub open_db : Bytes → Action World Db
  pub exec : Db → Bytes → Action World (Unit {0})
  pub query : Db → Bytes → Action World (List (List Bytes))
  pub changes : Db → World → ℤ
  pub last_insert_rowid : Db → World → ℤ
  pub close : Db → World → World
