-- ===== src/Client/Program/Post.antt =====
-- What holds of the outcome of a client's step.
use sqlite_broker.Prelude.{◌≡◌, ◌∙◌, Option, none, some}
use sqlite_broker.Prelude.Result.{Result, ok, err}
use sqlite_broker.Text.{Bytes}
use sqlite_broker.Client.Program.{Action, after, ◌>>=◌, handling, or_else}

module _ {World A : Type 0} where
  -- The step comes back, with an answer or an error and a world of which this holds.
  abbrev pub Post : (Result Bytes A → World → Type 0) → Option (Result Bytes A × World) → Type 0
  Post P none = ⊥
  Post P (some (r, w)) = P r w

  pub Post-mono :
      (P Q : Result Bytes A → World → Type 0) (o : Option (Result Bytes A × World))
      → ((r : Result Bytes A) (w : World) → P r w → Q r w)
      → Post P o
      → Post Q o
  Post-mono P Q none imp h = absurd h
  Post-mono P Q (some (r, w)) imp h = imp r w h

-- An answer of which this holds, or any error.
abbrev pub Succeeds : {World A : Type 0} → (A → World → Type 0) → Result Bytes A → World → Type 0
Succeeds Q (ok a) w = Q a w
Succeeds Q (err e) w = Unit

module _ {World A B : Type 0} where
  -- What the rest must do after an answer; an error ends the chain.
  abbrev pub Then :
      (A → Action World B) → (Result Bytes B → World → Type 0) → Result Bytes A → World → Type 0
  Then f P (ok a) w = Post P (f a w)
  Then f P (err e) w = P (err e) w

  pub after-Post :
      (f : A → Action World B) (P : Result Bytes B → World → Type 0)
      (o : Option (Result Bytes A × World))
      → Post (Then f P) o
      → Post P (after f o)
  after-Post f P none h = h
  after-Post f P (some (ok a, w)) h = h
  after-Post f P (some (err e, w)) h = h

module _ {World A B : Type 0} where
  pub after-Succeeds :
      (f : A → Action World B) (Q : A → World → Type 0) (P : B → World → Type 0)
      (o : Option (Result Bytes A × World))
      → Post (Succeeds Q) o
      → ((a : A) (w : World) → Q a w → Post (Succeeds P) (f a w))
      → Post (Succeeds P) (after f o)
  after-Succeeds f Q P none h rest = h
  after-Succeeds f Q P (some (ok a, w)) h rest = rest a w h
  after-Succeeds f Q P (some (err e, w)) h rest = tt

-- Steps that leave a part of the world as it was.
module _ {World J : Type 0} (j : World → J) where
  abbrev pub Keeps : {A : Type 0} → Action World A → Type 0
  Keeps m = (w : World) → Post (λ r w'. j w' ≡ j w) (m w)

  pub Keeps-after :
      {A B : Type 0} (f : A → Action World B) (m : Action World A)
      → Keeps m
      → ((a : A) → Keeps (f a))
      → Keeps (m >>= f)
  Keeps-after {A = A} {B = B} f m hm hf w =
      after-Post f (λ r w'. j w' ≡ j w) (m w) (follows (m w) (hm w))
    where
      follows :
          (o : Option (Result Bytes A × World))
          → Post (λ r u. j u ≡ j w) o
          → Post (Then f (λ r w'. j w' ≡ j w)) o
      follows none h = h
      follows (some (ok a, u)) h =
          Post-mono (λ r w'. j w' ≡ j u) (λ r w'. j w' ≡ j w) (f a u) (λ r w' e. e ∙ h) (hf a u)
      follows (some (err e, u)) h = h

  pub Keeps-or_else :
      {A : Type 0} (m : Action World A) (handler : Bytes → Action World A)
      → Keeps m
      → ((e : Bytes) → Keeps (handler e))
      → Keeps (or_else m handler)
  Keeps-or_else {A = A} m handler hm hh w = handled (m w) (hm w)
    where
      handled :
          (o : Option (Result Bytes A × World))
          → Post (λ r u. j u ≡ j w) o
          → Post (λ r u. j u ≡ j w) (handling handler o)
      handled none h = h
      handled (some (ok a, u)) h = h
      handled (some (err e, u)) h =
          Post-mono (λ r w'. j w' ≡ j u) (λ r w'. j w' ≡ j w) (handler e u) (λ r w' e'. e' ∙ h)
            (hh e u)

  pub Keeps-Succeeds :
      {A : Type 0} (m : Action World A) (w : World)
      → Keeps m
      → Post (Succeeds (λ (a : A) u. j u ≡ j w)) (m w)
  Keeps-Succeeds {A = A} m w h = kept (m w) (h w)
    where
      kept :
          (o : Option (Result Bytes A × World))
          → Post (λ r u. j u ≡ j w) o
          → Post (Succeeds (λ (a : A) u. j u ≡ j w)) o
      kept none h = h
      kept (some (ok a, u)) h = h
      kept (some (err e, u)) h = tt
