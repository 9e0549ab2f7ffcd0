-- ===== src/Text/Search.antt =====
-- `contains`, `starts_with`, ASCII case, and C strings.
pub mod Laws
use sqlite_broker.Prelude.{
  ℕ, suc, ◌+◌, ◌-◌, List, [], ◌∷◌, Bool, true, false, ◌&&◌, ◌||◌, ◌==◌, leb, if◌then◌else◌, map,
  Option, none, some, get_elem?, length, ltb,
}

unfoldable pub starts_with : List ℕ → List ℕ → Bool
starts_with [] text = true
starts_with (p ∷ ps) [] = false
starts_with (p ∷ ps) (t ∷ ts) = (p == t) && starts_with ps ts

unfoldable pub contains : List ℕ → List ℕ → Bool
unfolding starts_with
contains needle [] = starts_with needle []
contains needle (t ∷ ts) = starts_with needle (t ∷ ts) || contains needle ts

unfoldable pub to_ascii_lowercase : List ℕ → List ℕ
to_ascii_lowercase = map λ b. if leb b'A' b && leb b b'Z' then b + 32 else b

unfoldable pub to_ascii_uppercase : List ℕ → List ℕ
to_ascii_uppercase = map λ b. if leb b'a' b && leb b b'z' then b - 32 else b

-- Where the first NUL stands.
unfoldable pub nul_position : ℕ → List ℕ → Option ℕ
nul_position at [] = none
nul_position at (b ∷ bs) = let later = nul_position (suc at) bs in if b == 0 then some at else later

-- `CStr::from_ptr`: what stands in front of the first NUL.
unfoldable pub until_nul : List ℕ → List ℕ
until_nul [] = []
until_nul (b ∷ bs) = let rest = b ∷ until_nul bs in if b == 0 then [] else rest

-- `str::is_char_boundary`, at an index within the text.
unfoldable pub is_char_boundary : List ℕ → ℕ → Bool
is_char_boundary text i = elim (get_elem? text i) [
  | none ↦ i == length text
  | some b ↦ (i == 0) || (ltb b 0x80 || leb 0xc0 b)
]

abbrev pub with_front : ℕ → Option (List ℕ × List ℕ) → Option (List ℕ × List ℕ)
with_front b none = none
with_front b (some (front, back)) = some (b ∷ front, back)

-- `split_once`: what stands in front of the first separator, and behind it.
unfoldable pub split_once : ℕ → List ℕ → Option (List ℕ × List ℕ)
split_once sep [] = none
split_once sep (b ∷ bs) =
    let later = with_front b (split_once sep bs) in if b == sep then some ([], bs) else later

-- `strip_prefix`
unfoldable pub strip_prefix : List ℕ → List ℕ → Option (List ℕ)
strip_prefix [] text = some text
strip_prefix (p ∷ ps) [] = none
strip_prefix (p ∷ ps) (t ∷ ts) = if p == t then strip_prefix ps ts else none
