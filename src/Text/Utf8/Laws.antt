-- ===== src/Text/Utf8/Laws.antt =====
-- Valid text stays valid when texts are joined, and the lossy reading leaves it alone.
use sqlite_broker.Prelude.{
  ℕ, zero, suc, ◌≡◌, refl, sym, ap, ◌∙◌, arith, List, [], ◌∷◌, ◌++◌, append-nil, append_assoc, true,
  some, and_true, ==_iff, Bool-cases, inl, inr,
}
use sqlite_broker.Text.Utf8.{
  Decoder, idle, first, start, decode_byte, lossy_from, from_utf8_lossy, valid_from, from_utf8,
  accepts,
}

-- Where nothing is missing, the rest of the state does not matter.
valid-idle : (d : Decoder) (ys : List ℕ) → d.more ≡ 0 → valid_from d ys ≡ valid_from idle ys
unfolding valid_from
valid-idle d [] e = rw e
valid-idle d (y ∷ ys) e = rw (e, decode_byte)

pub valid-append :
    (d : Decoder) (xs ys : List ℕ)
    → valid_from d xs ≡ true
    → valid_from idle ys ≡ true
    → valid_from d (xs ++ ys) ≡ true
unfolding valid_from
valid-append d [] ys h k = valid-idle d ys ((==_iff d.more 0).0 h) ∙ k
valid-append d (x ∷ xs) ys h k =
    let (taken, rest) = and_true (accepts d x) (valid_from (decode_byte d x).1 xs) h in
    rw taken (valid-append (decode_byte d x).1 xs ys rest k)

-- Nothing waits where no byte is missing.
abbrev IsSane : Decoder → Type 0
IsSane d = d.more ≡ 0 → d.part ≡ []

start-accepted :
    (d : Decoder) (x : ℕ)
    → d.more ≡ 0
    → accepts d x ≡ true
    → ((start x).0 ++ (start x).1.part ≡ x ∷ []) × IsSane (start x).1
unfolding start first
start-accepted d x e h = (ground arith, ground arith)

decode_byte-accepted :
    (d : Decoder) (x : ℕ)
    → IsSane d
    → accepts d x ≡ true
    → ((decode_byte d x).0 ++ (decode_byte d x).1.part ≡ d.part ++ (x ∷ []))
      × IsSane (decode_byte d x).1
unfolding decode_byte
decode_byte-accepted d x sane h = go d.more refl
  where
    go :
        (m : ℕ)
        → d.more ≡ m
        → ((decode_byte d x).0 ++ (decode_byte d x).1.part ≡ d.part ++ (x ∷ []))
          × IsSane (decode_byte d x).1
    go zero e =
        let (same, sane') = start-accepted d x e h in rw (e, decode_byte, sane e) (same, sane')
    go (suc n) e = ground (arith, append-nil (d.part ++ (x ∷ [])))

-- What waits in the state is what the next characters begin with.
lossy-valid :
    (d : Decoder) (xs : List ℕ) → IsSane d → valid_from d xs ≡ true → lossy_from d xs ≡ d.part ++ xs
unfolding valid_from lossy_from
lossy-valid d [] sane h = let e = (==_iff d.more 0).0 h in rw (e, sane e)
lossy-valid d (x ∷ xs) sane h =
    let (taken, rest) = and_true (accepts d x) (valid_from (decode_byte d x).1 xs) h in
    let (same, sane') = decode_byte-accepted d x sane taken in
    ap (◌++◌ (decode_byte d x).0) (lossy-valid (decode_byte d x).1 xs sane' rest)
    ∙ sym (append_assoc (decode_byte d x).0 (decode_byte d x).1.part xs)
    ∙ ap (λ (t : List ℕ). t ++ xs) same
    ∙ append_assoc d.part (x ∷ []) xs

-- Valid text is read unchanged by the lossy reading.
pub from_utf8_lossy-valid :
    (t text : List ℕ) → from_utf8 t ≡ some text → (from_utf8_lossy t ≡ t) × (text ≡ t)
unfolding from_utf8 from_utf8_lossy
from_utf8_lossy-valid t text h = elim (Bool-cases (valid_from idle t)) [
  | inl good ↦ (lossy-valid idle t (λ e. refl) good, ground arith)
  | inr bad ↦ let k = rw bad at h in cc
]
