-- ===== src/Protocol/Base64.antt =====
-- `encode_base64` and `decode_base64` of protocol/src/lib.rs, on bytes.
pub mod RoundTrip
pub mod Bounds
use Prim.Native.Nat.{bit_or}
use sqlite_broker.Prelude.{
  ℕ, zero, suc, ◌+◌, ◌-◌, ◌*◌, ◌/◌, ◌%◌, ◌^◌, List, [], ◌∷◌, ◌++◌, Bool, true, false, not, ◌&&◌,
  ◌==◌, ltb, leb, if◌then◌else◌, Option, none, some, length, get_elem?, ◌>>=◌,
}
use sqlite_broker.Text.{Bytes, codes}

abbrev pub shl : ℕ → ℕ → ℕ
shl x k = x * 2 ^ k

abbrev pub shr : ℕ → ℕ → ℕ
shr x k = x / 2 ^ k

abbrev pub table : Bytes
table = codes "ABCDEFGHIJKLMNOPQRSTUVWXYZabcdefghijklmnopqrstuvwxyz0123456789+/"

-- `TABLE[(n & 63) as usize]`: the index is always in the table.
unfoldable pub symbol : ℕ → ℕ
symbol n = elim (get_elem? table (n % 64)) [ none ↦ 0 | some c ↦ c ]

abbrev pub pad : ℕ
pad = b'='

unfoldable pub encode_base64 : Bytes → Bytes
encode_base64 [] = []
encode_base64 (a ∷ []) = let n = shl a 16 in symbol (shr n 18) ∷ symbol (shr n 12) ∷ pad ∷ pad ∷ []
encode_base64 (a ∷ b ∷ []) =
    let n = bit_or (shl a 16) (shl b 8) in
    symbol (shr n 18) ∷ symbol (shr n 12) ∷ symbol (shr n 6) ∷ pad ∷ []
encode_base64 (a ∷ b ∷ c ∷ rest) =
    let n = bit_or (bit_or (shl a 16) (shl b 8)) c in
    symbol (shr n 18) ∷ symbol (shr n 12) ∷ symbol (shr n 6) ∷ symbol n ∷ encode_base64 rest

unfoldable pub val : ℕ → Option ℕ
val byte =
    if leb b'A' byte && leb byte b'Z'
    then some (byte - b'A')
    else if leb b'a' byte && leb byte b'z'
    then some (byte - b'a' + 26)
    else if leb b'0' byte && leb byte b'9'
    then some (byte - b'0' + 52)
    else if byte == b'+'
    then some 62
    else if byte == b'/'
    then some 63
    else none

-- The value of a place that may be padding.
abbrev pub val_or_pad : ℕ → Option ℕ
val_or_pad byte = if byte == pad then some 0 else val byte

abbrev pub as_u8 : ℕ → ℕ
as_u8 n = n % 256

abbrev pub pads : ℕ → ℕ
pads byte = if byte == pad then 1 else 0

-- The bytes of one chunk: three, less the padding.
unfoldable pub chunk_bytes : ℕ → ℕ → Bytes
chunk_bytes padding n =
    as_u8 (shr n 16)
    ∷ ((if ltb padding 2 then as_u8 (shr n 8) ∷ [] else [])
        ++ (if ltb padding 1 then as_u8 n ∷ [] else []))

unfoldable pub decode_chunk : ℕ → ℕ → ℕ → ℕ → Option Bytes
unfolding val chunk_bytes
decode_chunk a b c d = if (c == pad) && not (d == pad) then none else do
  v ← val a
  x ← val b
  y ← val_or_pad c
  z ← val_or_pad d
  some (chunk_bytes (pads c + pads d) (bit_or (bit_or (bit_or (shl v 18) (shl x 12)) (shl y 6)) z))

-- `chunks_exact(4)`: what is left over is not read.
unfoldable pub decode_chunks : Bytes → Option Bytes
unfolding decode_chunk
decode_chunks (a ∷ b ∷ c ∷ d ∷ rest) = do
  out ← decode_chunk a b c d
  more ← decode_chunks rest
  some (out ++ more)
decode_chunks _ = some []

unfoldable pub decode_base64 : Bytes → Option Bytes
unfolding decode_chunks
decode_base64 text = if length text % 4 == 0 then decode_chunks text else none
