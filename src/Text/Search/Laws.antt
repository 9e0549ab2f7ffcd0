-- ===== src/Text/Search/Laws.antt =====
-- What `strip_prefix` takes.
use sqlite_broker.Prelude.{
  ℕ, ◌==◌, ◌≡◌, refl, ap, arith, if-both, [], ◌∷◌, ◌++◌, Option, none, some,
}
use mathlib.Core.Path.{subst}
use sqlite_broker.Text.{Bytes}
use sqlite_broker.Text.Search.{strip_prefix}

-- What a prefix was taken from.
abbrev pub Front : Bytes → Bytes → Option Bytes → Type 0
Front p text none = Unit
Front p text (some rest) = text ≡ p ++ rest

Front-more :
    (a : ℕ) (p text : Bytes) (o : Option Bytes) → Front p text o → Front (a ∷ p) (a ∷ text) o
Front-more a p text none h = tt
Front-more a p text (some rest) h = ap (◌∷◌ a) h

pub strip_prefix-Front : (p text : Bytes) → Front p text (strip_prefix p text)
unfolding strip_prefix
strip_prefix-Front [] text = refl
strip_prefix-Front (a ∷ p) [] = tt
strip_prefix-Front (a ∷ p) (b ∷ text) =
    if-both (Front (a ∷ p) (b ∷ text)) (a == b)
      (λ h.
        subst (λ (c : ℕ). Front (a ∷ p) (c ∷ text) (strip_prefix p text)) (ground arith)
          (Front-more a p text (strip_prefix p text) (strip_prefix-Front p text)))
      (λ h. tt)
