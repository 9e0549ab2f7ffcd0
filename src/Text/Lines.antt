-- ===== src/Text/Lines.antt =====
-- `str::lines`: lines end at a line feed, and one carriage return before it goes too.
pub mod Laws
use sqlite_broker.Prelude.{ℕ, List, [], ◌∷◌, ◌++◌, ◌==◌, if◌then◌else◌}

abbrev strip_return : List ℕ → List ℕ
strip_return [] = []
strip_return (c ∷ []) = if c == 13 then [] else c ∷ []
strip_return (c ∷ d ∷ rest) = c ∷ strip_return (d ∷ rest)

abbrev last_line : List ℕ → List (List ℕ)
last_line [] = []
last_line (c ∷ cs) = (c ∷ cs) ∷ []

unfoldable pub lines_from : List ℕ → List ℕ → List (List ℕ)
lines_from line [] = last_line line
lines_from line (b ∷ bs) =
    let ended = strip_return line ∷ lines_from [] bs in
    let longer = lines_from (line ++ (b ∷ [])) bs in if b == 10 then ended else longer

unfoldable pub lines : List ℕ → List (List ℕ)
unfolding lines_from
lines text = lines_from [] text
