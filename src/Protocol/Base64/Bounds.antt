-- ===== src/Protocol/Base64/Bounds.antt =====
-- What decoding may answer, on any text.
use sqlite_broker.Prelude.{
  ℕ, ◌+◌, ◌*◌, ◌/◌, ◌%◌, ◌≤◌, ◌≡◌, arith, ◌∷◌, some, All, All-append, length, length-append,
  >>=-eq-some, suc, Bool-cases, inl, inr, ◌==◌, ◌&&◌, not,
}
use mathlib.Core.Path.{subst}
use mathlib.Core.Option.{some-injective}
use sqlite_broker.Text.{Bytes}
use sqlite_broker.Protocol.Base64.{
  pad, pads, val, val_or_pad, chunk_bytes, decode_chunk, decode_chunks, decode_base64,
}
use sqlite_broker.Protocol.Base64.RoundTrip.{IsByte}

-- The bytes, and how many they can be.
abbrev pub Fits : ℕ → Bytes → Type 0
Fits n xs = All IsByte xs × (length xs ≤ n)

chunk_bytes-Fits : (padding n : ℕ) → Fits 3 (chunk_bytes padding n)
unfolding chunk_bytes
chunk_bytes-Fits padding n = ground arith

chunk_bytes_out :
    (padding n : ℕ) (out : Bytes) → some (chunk_bytes padding n) ≡ some out → Fits 3 out
chunk_bytes_out padding n out e = subst (Fits 3) (some-injective _ _ e) (chunk_bytes-Fits padding n)

decode_chunk-Fits : (a b c d : ℕ) (out : Bytes) → decode_chunk a b c d ≡ some out → Fits 3 out
unfolding decode_chunk
decode_chunk-Fits a b c d out h = elim (Bool-cases ((c == pad) && not (d == pad))) [
  | inl wrong ↦ let k = rw wrong at h in cc
  | inr fine ↦
      let (v, _, h1) = >>=-eq-some (val a) _ (rw fine at h) in
      let (x, _, h2) = >>=-eq-some (val b) _ h1 in
      let (y, _, h3) = >>=-eq-some (val_or_pad c) _ h2 in
      let (z, _, h4) = >>=-eq-some (val_or_pad d) _ h3 in chunk_bytes_out (pads c + pads d) _ out h4
]

decode_chunks-Fits : (t xs : Bytes) → decode_chunks t ≡ some xs → Fits (length t / 4 * 3) xs
unfolding decode_chunks
decode_chunks-Fits (a ∷ b ∷ c ∷ d ∷ rest) xs h =
    let (out, one, k) = >>=-eq-some (decode_chunk a b c d) _ h in
    let (more, later, e) = >>=-eq-some (decode_chunks rest) _ k in
    let first = decode_chunk-Fits a b c d out one in
    let others = decode_chunks-Fits rest more later in
    subst (Fits (suc (suc (suc (suc (length rest)))) / 4 * 3)) (some-injective _ _ e) (
      All-append IsByte out more first.0 others.0,
      omega (arith, length-append out more, first.1, others.1),
    )
decode_chunks-Fits _ xs h = subst (Fits 0) (some-injective _ _ h) (tt, omega arith)

-- Whatever text is accepted, what comes out are bytes, three at most for every four of the text.
pub decode_base64-Fits :
    (t xs : Bytes)
    → decode_base64 t ≡ some xs
    → All IsByte xs × (length xs ≤ length t / 4 * 3) × (length t % 4 ≡ 0)
unfolding decode_base64
decode_base64-Fits t xs h = elim (Bool-cases (length t % 4 == 0)) [
  | inl even ↦ let f = decode_chunks-Fits t xs (rw even at h) in (f.0, f.1, ground arith)
  | inr odd ↦ let k = rw odd at h in cc
]
