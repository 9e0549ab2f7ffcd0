-- ===== src/Protocol/Render.antt =====
-- `Cell::render` and `Cell::blob_bytes` of protocol/src/lib.rs. How an `f64` is printed is a parameter.
use sqlite_broker.Prelude.{ℕ, [], Option, none, some}
use sqlite_broker.Text.{Bytes}
use sqlite_broker.Text.Decimal.{decimal_int}
use sqlite_broker.Text.Utf8.{from_utf8_lossy}
use sqlite_broker.Protocol.Message.{Cell, null, int, real, text, blob}
use sqlite_broker.Protocol.Base64.{decode_base64}

abbrev pub or_empty : Option Bytes → Bytes
or_empty none = []
or_empty (some bytes) = bytes

abbrev pub lossy_or_empty : Option Bytes → Bytes
lossy_or_empty none = []
lossy_or_empty (some bytes) = from_utf8_lossy bytes

unfoldable pub render : (ℕ → Bytes) → Cell → Bytes
render display_real null = []
render display_real (int v) = decimal_int v
render display_real (real v) = display_real v
render display_real (text v) = v
render display_real (blob v) = lossy_or_empty (decode_base64 v)

unfoldable pub blob_bytes : Cell → Option Bytes
blob_bytes (blob v) = decode_base64 v
blob_bytes _ = none
