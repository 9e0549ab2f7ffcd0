-- ===== src/Text/Utf8.antt =====
-- `String::from_utf8_lossy` and `str::from_utf8`: one automaton reads the bytes. What it has read of
-- a character waits in `part`; `more` bytes are missing, and the next lies between `low` and `high`.
pub mod Laws
use sqlite_broker.Prelude.{
  ℕ, zero, suc, List, [], ◌∷◌, ◌++◌, Bool, true, false, ◌&&◌, ◌==◌, leb, ltb, if◌then◌else◌, Option,
  none, some,
}

pub record Decoder : Type 0 where
  pub part : List ℕ
  pub more : ℕ
  pub low : ℕ
  pub high : ℕ

abbrev pub idle : Decoder
idle = record { part = []; more = 0; low = 0x80; high = 0xbf }

abbrev expect : ℕ → ℕ → ℕ → ℕ → Decoder
expect b more low high = record { part = b ∷ []; more = more; low = low; high = high }

-- What a first byte starts: a whole character, an error, or a character of several bytes.
pub data First : Type 0 where
  whole : First
  broken : First
  begun : Decoder → First

unfoldable pub first : ℕ → First
first b =
    if ltb b 0x80
    then whole
    else if ltb b 0xc2
    then broken
    else if ltb b 0xe0
    then begun (expect b 1 0x80 0xbf)
    else if b == 0xe0
    then begun (expect b 2 0xa0 0xbf)
    else if b == 0xed
    then begun (expect b 2 0x80 0x9f)
    else if ltb b 0xf0
    then begun (expect b 2 0x80 0xbf)
    else if b == 0xf0
    then begun (expect b 3 0x90 0xbf)
    else if ltb b 0xf4
    then begun (expect b 3 0x80 0xbf)
    else if b == 0xf4
    then begun (expect b 3 0x80 0x8f)
    else broken

-- U+FFFD
abbrev pub replacement : List ℕ
replacement = 0xef ∷ 0xbf ∷ 0xbd ∷ []

-- One byte: what goes out, and the next state.
unfoldable pub start : ℕ → List ℕ × Decoder
unfolding first
start b = elim (first b) [
  | whole ↦ (b ∷ [], idle)
  | broken ↦ (replacement, idle)
  | begun d ↦ ([], d)
]

unfoldable pub decode_byte : Decoder → ℕ → List ℕ × Decoder
unfolding start
decode_byte d b = elim d.more [
  | zero ↦ start b
  | suc n ↦
      if leb d.low b && leb b d.high
      then (if n == 0
          then (d.part ++ (b ∷ []), idle)
          else ([], record { part = d.part ++ (b ∷ []); more = n; low = 0x80; high = 0xbf }))
      else (replacement ++ (start b).0, (start b).1)
]

unfoldable pub lossy_from : Decoder → List ℕ → List ℕ
lossy_from d [] = if d.more == 0 then [] else replacement
lossy_from d (b ∷ bs) = (decode_byte d b).0 ++ lossy_from (decode_byte d b).1 bs

unfoldable pub from_utf8_lossy : List ℕ → List ℕ
unfolding lossy_from decode_byte
from_utf8_lossy bytes = lossy_from idle bytes

-- The strict reading stops at the first byte that the lossy one would replace.
abbrev accepts : Decoder → ℕ → Bool
accepts d b = elim d.more [
  | zero ↦ (elim (first b) [ broken ↦ false | _ ↦ true ])
  | suc n ↦ leb d.low b && leb b d.high
]

unfoldable pub valid_from : Decoder → List ℕ → Bool
unfolding decode_byte
valid_from d [] = d.more == 0
valid_from d (b ∷ bs) = accepts d b && valid_from (decode_byte d b).1 bs

unfoldable pub from_utf8 : List ℕ → Option (List ℕ)
unfolding valid_from
from_utf8 bytes = if valid_from idle bytes then some bytes else none
