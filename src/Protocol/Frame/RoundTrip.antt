-- ===== src/Protocol/Frame/RoundTrip.antt =====
-- What is written is read back, frame by frame.
use sqlite_broker.Prelude.{
  ℕ, ◌+◌, ◌≤◌, ◌<◌, ◌≡◌, refl, ap, arith, ◌++◌, append_assoc, false, ltb, length, length-append,
  take-length_append, drop-length_append,
}
use sqlite_broker.Prelude.Result.{Result, ok, err, ◌>>=◌}
use sqlite_broker.Text.{Bytes}
use sqlite_broker.Protocol.Frame.{
  Codec, max_frame, invalid, to_le_bytes, frame, read_body, from_le_bytes, read_exact, write_msg,
  read_msg,
}

read_exact-append : (xs rest : Bytes) → read_exact (length xs) (xs ++ rest) ≡ ok (xs, rest)
unfolding read_exact
read_exact-append xs rest =
    let fits : ltb (length (xs ++ rest)) (length xs) ≡ false =
      ground (arith, length-append xs rest) in
    rw (fits, take-length_append xs rest, drop-length_append xs rest)

from_le_bytes-to_le_bytes : (n : ℕ) → n < 4294967296 → from_le_bytes (to_le_bytes n) ≡ n
unfolding from_le_bytes to_le_bytes
from_le_bytes-to_le_bytes n h = omega arith

frame-cases :
    (body sent : Bytes)
    → frame body ≡ ok sent
    → (sent ≡ to_le_bytes (length body) ++ body) × (length body ≤ max_frame)
unfolding frame
frame-cases body sent h = ground arith

read_body-append :
    (body rest : Bytes)
    → length body ≤ max_frame
    → read_body (length body) (body ++ rest) ≡ ok (body, rest)
unfolding read_body
read_body-append body rest fits =
    let e : ltb max_frame (length body) ≡ false = ground arith in rw e (read_exact-append body rest)

read_length :
    (n : ℕ) (stream : Bytes) → read_exact 4 (to_le_bytes n ++ stream) ≡ ok (to_le_bytes n, stream)
unfolding to_le_bytes
read_length n stream = read_exact-append (to_le_bytes n) stream

length-to_le_bytes : (n : ℕ) → length (to_le_bytes n) ≡ 4
unfolding to_le_bytes
length-to_le_bytes n = refl

read_frame :
    {T : Type 0} (codec : Codec T) (msg : T) (body rest : Bytes)
    → length body ≤ max_frame
    → codec.from_slice body ≡ ok msg
    → read_msg codec (to_le_bytes (length body) ++ (body ++ rest)) ≡ ok (msg, rest)
unfolding read_msg
read_frame codec msg body rest fits e = rw (
  read_length (length body) (body ++ rest),
  from_le_bytes-to_le_bytes (length body) (omega arith),
  read_body-append body rest fits,
  e,
)

module _ {T : Type 0} (codec : Codec T) where
  -- serde_json reads this message back from what it wrote. It documents that it does so for integers,
  -- Booleans, text, and lists and structs of these, but not for every `f64`.
  abbrev pub ReadsBack : T → Type 0
  ReadsBack msg = (body : Bytes) → codec.to_vec msg ≡ ok body → codec.from_slice body ≡ ok msg

  -- A message that serde_json reads back from what it wrote, when it was written, makes one frame of at
  -- most 16 MiB and four bytes, and reading the stream gives the message and leaves what came after its
  -- frame.
  pub read_msg-write_msg :
      (msg : T) (sent rest : Bytes)
      → ReadsBack msg
      → write_msg codec msg ≡ ok sent
      → (read_msg codec (sent ++ rest) ≡ ok (msg, rest)) × (length sent ≤ max_frame + 4)
  unfolding write_msg
  read_msg-write_msg msg sent rest back h = go (codec.to_vec msg) refl h
    where
      go :
          (r : Result Bytes Bytes)
          → codec.to_vec msg ≡ r
          → (invalid r >>= frame) ≡ ok sent
          → (read_msg codec (sent ++ rest) ≡ ok (msg, rest)) × (length sent ≤ max_frame + 4)
      go (err m) e k = absurd (cc)
      go (ok body) e k =
          let (sent_is, fits) = frame-cases body sent k in
          (
            rw (sent_is, append_assoc) (read_frame codec msg body rest fits (back body e)),
            omega (
              arith,
              ap length sent_is,
              length-append (to_le_bytes (length body)) body,
              length-to_le_bytes (length body),
            ),
          )
