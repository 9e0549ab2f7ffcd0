-- ===== src/Text/Lines/Laws.antt =====
-- A line without breaks in it is read up to its line feed.
use sqlite_broker.Prelude.{
  ℕ, ◌≡◌, refl, ap, ◌∙◌, List, [], ◌∷◌, ◌++◌, append_assoc, append-nil, All,
}
use sqlite_broker.Text.Space.Laws.{IsNoBreak}
use sqlite_broker.Text.Lines.{strip_return, lines_from}

strip_return-clean : (xs : List ℕ) → All IsNoBreak xs → strip_return xs ≡ xs
strip_return-clean [] h = refl
strip_return-clean (c ∷ []) h = rw h.0.1
strip_return-clean (c ∷ d ∷ rest) h = ap (◌∷◌ c) (strip_return-clean (d ∷ rest) h.1)

lines_from-break :
    (line xs rest : List ℕ)
    → All IsNoBreak xs
    → lines_from line (xs ++ (10 ∷ rest)) ≡ strip_return (line ++ xs) ∷ lines_from [] rest
unfolding lines_from
lines_from-break line [] rest h = rw append-nil
lines_from-break line (x ∷ xs) rest h = rw h.0.0 (
    lines_from-break (line ++ (x ∷ [])) xs rest h.1
    ∙ ap (λ (t : List ℕ). strip_return t ∷ lines_from [] rest) (append_assoc line (x ∷ []) xs))

pub lines-break :
    (xs rest : List ℕ)
    → All IsNoBreak xs
    → lines_from [] (xs ++ (10 ∷ rest)) ≡ xs ∷ lines_from [] rest
lines-break xs rest h =
    lines_from-break [] xs rest h
    ∙ ap (λ (t : List ℕ). t ∷ lines_from [] rest) (strip_return-clean xs h)
