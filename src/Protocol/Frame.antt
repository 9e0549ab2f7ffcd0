-- ===== src/Protocol/Frame.antt =====
-- `write_msg` and `read_msg` of protocol/src/lib.rs. The stream is the bytes that are still to be
-- read; serde_json is a parameter.
pub mod RoundTrip
use sqlite_broker.Prelude.{
  ℕ, ◌+◌, ◌*◌, ◌/◌, ◌%◌, ◌^◌, List, [], ◌∷◌, ◌++◌, Option, none, some, ltb, if◌then◌else◌, length,
  take, drop,
}
use sqlite_broker.Prelude.Result.{Result, ok, err, ◌>>=◌}
use sqlite_broker.Text.{Bytes, codes}

pub data IoError : Type 0 where
  unexpected_eof : IoError
  invalid_data : (message : Bytes) → IoError

-- `serde_json::to_vec` and `from_slice` at one message type.
pub record Codec (T : Type 0) : Type 0 where
  pub to_vec : T → Result Bytes Bytes
  pub from_slice : Bytes → Result Bytes T

abbrev pub max_frame : ℕ
max_frame = 16 * 1024 * 1024

abbrev pub invalid {ℓ} : {A : Type ℓ} → Result Bytes A → Result IoError A
invalid (ok a) = ok a
invalid (err message) = err (invalid_data message)

-- `(n as u32).to_le_bytes()` and `u32::from_le_bytes`.
unfoldable pub to_le_bytes : ℕ → Bytes
to_le_bytes n = n % 256 ∷ (n / 256 % 256) ∷ (n / 65536 % 256) ∷ (n / 16777216 % 256) ∷ []

unfoldable pub from_le_bytes : Bytes → ℕ
from_le_bytes (a ∷ b ∷ c ∷ d ∷ []) = a + b * 256 + c * 65536 + d * 16777216
from_le_bytes _ = 0

-- `read_exact` into a buffer of `n` bytes.
unfoldable pub read_exact : ℕ → Bytes → Result IoError (Bytes × Bytes)
read_exact n stream =
    if ltb (length stream) n then err unexpected_eof else ok (take n stream, drop n stream)

-- The length of the body and the body, unless it is too large.
unfoldable pub frame : Bytes → Result IoError Bytes
frame body =
    if ltb max_frame (length body)
    then err (invalid_data (codes "message too large"))
    else ok (to_le_bytes (length body) ++ body)

-- The body of a frame whose length has been read.
unfoldable pub read_body : ℕ → Bytes → Result IoError (Bytes × Bytes)
read_body len stream =
    if ltb max_frame len
    then err (invalid_data (codes "frame too large"))
    else read_exact len stream

module _ {T : Type 0} (codec : Codec T) where
  -- What goes on the stream.
  unfoldable pub write_msg : T → Result IoError Bytes
  write_msg msg = do body ← invalid (codec.to_vec msg); frame body

  -- The message, and what is left on the stream.
  unfoldable pub read_msg : Bytes → Result IoError (T × Bytes)
  read_msg stream = do
    (len_buf, after_len) ← read_exact 4 stream
    (body, rest) ← read_body (from_le_bytes len_buf) after_len
    msg ← invalid (codec.from_slice body)
    ok (msg, rest)
