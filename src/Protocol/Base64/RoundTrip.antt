-- ===== src/Protocol/Base64/RoundTrip.antt =====
-- Decoding undoes encoding.
use Prim.Native.Nat.{bit_or}
use sqlite_broker.Prelude.{
  ℕ, ◌+◌, ◌*◌, ◌/◌, ◌%◌, ◌^◌, ◌<◌, ◌≡◌, refl, sym, ap, ◌∙◌, arith, [], ◌∷◌, Bool, true, false, ◌&&◌,
  ◌==◌, none, some, All, length, get_elem?, if◌then◌else◌,
}
use sqlite_broker.Prelude.Bits.{or_fields, all_below, test-all_below}
use sqlite_broker.Text.{Bytes}
use sqlite_broker.Protocol.Base64.{
  table, shl, shr, symbol, pad, encode_base64, val, val_or_pad, as_u8, chunk_bytes, decode_chunk,
  decode_chunks, decode_base64,
}

abbrev pub IsByte : ℕ → Type 0
IsByte b = b < 256

-- The symbols, checked one by one: each stands for its index, and none is the padding.
reads : ℕ → ℕ → Bool
reads n byte = elim (val byte) [
  | none ↦ false
  | some v ↦ (v == n) && (if byte == pad then false else true)
]

all_read : all_below (λ n. reads n (symbol n)) 64 ≡ true
unfolding all_below reads symbol val
all_read = refl

Reads-cases : (n byte : ℕ) → reads n byte ≡ true → (val byte ≡ some n) × ((byte == pad) ≡ false)
unfolding reads
Reads-cases n byte h = ground arith

symbol-mod : (n : ℕ) → symbol n ≡ symbol (n % 64)
unfolding symbol
symbol-mod n =
    let e : n % 64 ≡ n % 64 % 64 = omega arith in
    ap (λ (i : ℕ). elim (get_elem? table i) [ none ↦ 0 | some c ↦ c ]) e

pub val-symbol : (n : ℕ) → (val (symbol n) ≡ some (n % 64)) × ((symbol n == pad) ≡ false)
val-symbol n = rw (symbol-mod n) (
    Reads-cases (n % 64) (symbol (n % 64))
      (test-all_below (λ m. reads m (symbol m)) 64 (n % 64) (omega arith) all_read))

-- The three bytes of a chunk in one number, and the number in four places of six bits.
join_bytes :
    (a b c : ℕ)
    → IsByte b
    → IsByte c
    → bit_or (bit_or (shl a 16) (shl b 8)) c ≡ a * 65536 + b * 256 + c
join_bytes a b c hb hc =
    ap (λ (t : ℕ). bit_or t c) (or_fields 16 a (b * 2 ^ 8) (omega arith) ∙ e)
    ∙ or_fields 8 (a * 256 + b) c hc
    ∙ omega arith
  where
    e : a * 2 ^ 16 + b * 2 ^ 8 ≡ (a * 256 + b) * 2 ^ 8
    e = omega arith

join_places :
    (v x y z : ℕ)
    → x < 64
    → y < 64
    → z < 64
    → bit_or (bit_or (bit_or (shl v 18) (shl x 12)) (shl y 6)) z
      ≡ v * 262144 + x * 4096 + y * 64 + z
join_places v x y z hx hy hz =
    ap (λ (t : ℕ). bit_or (bit_or t (y * 2 ^ 6)) z) (or_fields 18 v (x * 2 ^ 12) (omega arith) ∙ e)
    ∙ ap (λ (t : ℕ). bit_or t z) (or_fields 12 (v * 64 + x) (y * 2 ^ 6) (omega arith) ∙ f)
    ∙ or_fields 6 (v * 4096 + x * 64 + y) z hz
    ∙ omega arith
  where
    e : v * 2 ^ 18 + x * 2 ^ 12 ≡ (v * 64 + x) * 2 ^ 12
    e = omega arith

    f : (v * 64 + x) * 2 ^ 12 + y * 2 ^ 6 ≡ (v * 4096 + x * 64 + y) * 2 ^ 6
    f = omega arith

places :
    (n : ℕ)
    → n < 16777216
    → n / 262144 % 64 * 262144 + n / 4096 % 64 * 4096 + n / 64 % 64 * 64 + n % 64 ≡ n
places n h = omega arith

val_or_pad-symbol : (n : ℕ) → val_or_pad (symbol n) ≡ some (n % 64)
val_or_pad-symbol n = rw ((val-symbol n).1) ((val-symbol n).0)

places_of :
    (n : ℕ)
    → n < 16777216
    → bit_or
        (bit_or (bit_or (shl (shr n 18 % 64) 18) (shl (shr n 12 % 64) 12)) (shl (shr n 6 % 64) 6))
        (n % 64)
      ≡ n
places_of n h =
    join_places (shr n 18 % 64) (shr n 12 % 64) (shr n 6 % 64) (n % 64) (omega arith) (omega arith)
      (omega arith)
    ∙ places n h

-- A chunk of four symbols has three bytes.
decode_full :
    (n : ℕ)
    → n < 16777216
    → decode_chunk (symbol (shr n 18)) (symbol (shr n 12)) (symbol (shr n 6)) (symbol n)
      ≡ some (as_u8 (shr n 16) ∷ as_u8 (shr n 8) ∷ as_u8 n ∷ [])
unfolding decode_chunk chunk_bytes
decode_full n h = rw (
  (val-symbol (shr n 6)).1,
  (val-symbol n).1,
  (val-symbol (shr n 18)).0,
  (val-symbol (shr n 12)).0,
  (val-symbol (shr n 6)).0,
  (val-symbol n).0,
  places_of n h,
)

-- With one padding it has two, with two it has one.
decode_two :
    (n : ℕ)
    → n < 16777216
    → n % 64 ≡ 0
    → decode_chunk (symbol (shr n 18)) (symbol (shr n 12)) (symbol (shr n 6)) pad
      ≡ some (as_u8 (shr n 16) ∷ as_u8 (shr n 8) ∷ [])
unfolding decode_chunk chunk_bytes
decode_two n h z =
    let e =
      ap
        (bit_or (
          bit_or (bit_or (shl (shr n 18 % 64) 18) (shl (shr n 12 % 64) 12)) (shl (shr n 6 % 64) 6)))
        (sym z)
      ∙ places_of n h in
    rw (
      (val-symbol (shr n 6)).1,
      (val-symbol (shr n 18)).0,
      (val-symbol (shr n 12)).0,
      (val-symbol (shr n 6)).0,
      e,
    )

decode_one :
    (n : ℕ)
    → n < 16777216
    → n % 64 ≡ 0
    → shr n 6 % 64 ≡ 0
    → decode_chunk (symbol (shr n 18)) (symbol (shr n 12)) pad pad ≡ some (as_u8 (shr n 16) ∷ [])
unfolding decode_chunk chunk_bytes
decode_one n h z y =
    let e =
      ap
        (λ (t : ℕ).
          bit_or (bit_or (bit_or (shl (shr n 18 % 64) 18) (shl (shr n 12 % 64) 12)) (shl t 6)) 0)
        (sym y)
      ∙ ap
          (bit_or (
            bit_or (bit_or (shl (shr n 18 % 64) 18) (shl (shr n 12 % 64) 12))
              (shl (shr n 6 % 64) 6)))
          (sym z)
      ∙ places_of n h in
    rw ((val-symbol (shr n 18)).0, (val-symbol (shr n 12)).0, e)

bytes_of :
    (a b c n : ℕ)
    → n ≡ a * 65536 + b * 256 + c
    → IsByte a
    → IsByte b
    → IsByte c
    → (as_u8 (shr n 16) ≡ a) × (as_u8 (shr n 8) ≡ b) × (as_u8 n ≡ c) × (n < 16777216)
bytes_of a b c n e ha hb hc = omega arith

pub decode_chunks-encode : (xs : Bytes) → All IsByte xs → decode_chunks (encode_base64 xs) ≡ some xs
unfolding decode_chunks encode_base64
decode_chunks-encode [] h = refl
decode_chunks-encode (a ∷ []) (ha, u) =
    let n = shl a 16 in
    let (ea, eb, ec, lt) = bytes_of a 0 0 n (omega arith) ha (omega arith) (omega arith) in
    rw (decode_one n lt (omega arith) (omega arith), ea)
decode_chunks-encode (a ∷ b ∷ []) (ha, t) =
    let hb = t.0 in
    let n = bit_or (shl a 16) (shl b 8) in
    let e : n ≡ a * 65536 + b * 256 + 0 = or_fields 16 a (shl b 8) (omega arith) ∙ omega arith in
    let (ea, eb, ec, lt) = bytes_of a b 0 n e ha hb (omega arith) in
    rw (decode_two n lt (omega arith), ea, eb)
decode_chunks-encode (a ∷ b ∷ c ∷ rest) (ha, t) =
    let hb = t.0 in
    let hc = t.1.0 in
    let n = bit_or (bit_or (shl a 16) (shl b 8)) c in
    let (ea, eb, ec, lt) = bytes_of a b c n (join_bytes a b c hb hc) ha hb hc in
    rw (decode_full n lt, decode_chunks-encode rest t.1.1, ea, eb, ec)

-- The text has four symbols for every three bytes begun.
pub length-encode_base64 : (xs : Bytes) → length (encode_base64 xs) ≡ (length xs + 2) / 3 * 4
unfolding encode_base64
length-encode_base64 [] = refl
length-encode_base64 (a ∷ []) = refl
length-encode_base64 (a ∷ b ∷ []) = refl
length-encode_base64 (a ∷ b ∷ c ∷ rest) = omega (arith, length-encode_base64 rest)

-- Decoding the text of any bytes, each below 256, gives those bytes.
pub decode_base64-encode_base64 :
    (xs : Bytes) → All IsByte xs → decode_base64 (encode_base64 xs) ≡ some xs
unfolding decode_base64
decode_base64-encode_base64 xs h =
    let e : length (encode_base64 xs) % 4 ≡ 0 = omega (arith, length-encode_base64 xs) in
    rw e (decode_chunks-encode xs h)
