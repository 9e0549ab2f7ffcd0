-- ===== src/Text/Space/Laws.antt =====
-- Text without white space.
use sqlite_broker.Prelude.{
  ℕ, zero, suc, ◌==◌, ◌≡◌, refl, ap, ◌∙◌, arith, List, [], ◌∷◌, ◌++◌, append_assoc, append-nil,
  false, All, or_false,
}
use sqlite_broker.Text.Space.{
  is_ascii_space, space_len, not_zero, has_space, trim_front, trim_back, trim,
}

not_zero-false : (n : ℕ) → not_zero n ≡ false → n ≡ 0
not_zero-false zero h = refl
not_zero-false (suc n) h = cc

-- The parts of a text without white space.
has_space-cons :
    (b : ℕ) (bs : List ℕ)
    → has_space (b ∷ bs) ≡ false
    → (space_len (b ∷ bs) ≡ 0) × (has_space bs ≡ false)
unfolding has_space
has_space-cons b bs h =
    let (here, there) = or_false (not_zero (space_len (b ∷ bs))) (has_space bs) h in
    (not_zero-false (space_len (b ∷ bs)) here, there)

trim_front-clean : (xs : List ℕ) → has_space xs ≡ false → trim_front 0 xs ≡ xs
unfolding trim_front
trim_front-clean [] h = refl
trim_front-clean (b ∷ bs) h = rw ((has_space-cons b bs h).0, trim_front)

trim_back-clean : (kept xs : List ℕ) → has_space xs ≡ false → trim_back 0 kept [] xs ≡ kept ++ xs
unfolding trim_back
trim_back-clean kept [] h = rw append-nil
trim_back-clean kept (b ∷ bs) h =
    let (here, there) = has_space-cons b bs h in
    rw (here, trim_back)
      (trim_back-clean (kept ++ (b ∷ [])) bs there ∙ append_assoc kept (b ∷ []) bs)

-- Nothing is trimmed off it.
pub trim-clean : (xs : List ℕ) → has_space xs ≡ false → trim xs ≡ xs
unfolding trim
trim-clean xs h = ap (trim_back 0 [] []) (trim_front-clean xs h) ∙ trim_back-clean [] xs h

abbrev pub IsNoBreak : ℕ → Type 0
IsNoBreak b = ((b == 10) ≡ false) × ((b == 13) ≡ false)

ascii-IsNoBreak : (b : ℕ) → is_ascii_space b ≡ false → IsNoBreak b
unfolding is_ascii_space
ascii-IsNoBreak b h = ground arith

space_len-ascii : (b : ℕ) (bs : List ℕ) → space_len (b ∷ bs) ≡ 0 → is_ascii_space b ≡ false
unfolding space_len
space_len-ascii b [] h = ground arith
space_len-ascii b (c ∷ []) h = ground arith
space_len-ascii b (c ∷ d ∷ r) h = ground arith

pub has_space-IsNoBreak : (xs : List ℕ) → has_space xs ≡ false → All IsNoBreak xs
has_space-IsNoBreak [] h = tt
has_space-IsNoBreak (b ∷ bs) h =
    let (here, there) = has_space-cons b bs h in
    (ascii-IsNoBreak b (space_len-ascii b bs here), has_space-IsNoBreak bs there)
