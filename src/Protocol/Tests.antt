-- ===== src/Protocol/Tests.antt =====
-- The protocol of protocol/src/lib.rs run on small inputs.
use sqlite_broker.Prelude.{
  ◌-◌, if◌then◌else◌, Option, none, take, bytes_eq, ◌≡◌, ◌%◌, ◌/◌, ◌*◌, ◌≤◌, ◌+◌, refl, arith, [],
  ◌∷◌, ◌++◌, some, All, length,
}
use sqlite_broker.Prelude.Result.{Result, ok, err}
use sqlite_broker.Text.{Bytes, codes}
use sqlite_broker.Text.Utf8.{from_utf8, from_utf8_lossy, valid_from}
use sqlite_broker.Text.Utf8.Laws.{from_utf8_lossy-valid}
use sqlite_broker.Text.Space.{trim, has_space, space_len, is_ascii_space, is_wide_space}
use sqlite_broker.Text.Lines.{lines}
use sqlite_broker.Protocol.Base64.{encode_base64, decode_base64}
use sqlite_broker.Protocol.Base64.RoundTrip.{
  IsByte, length-encode_base64, decode_base64-encode_base64,
}
use sqlite_broker.Protocol.Base64.Bounds.{decode_base64-Fits}
use sqlite_broker.Protocol.Stub.{format_stub, parse_stub, stub_lines, stub_word}
use sqlite_broker.Protocol.Stub.RoundTrip.{
  IsAddress, IsStub, parse_stub-format_stub, parse_stub-IsStub,
}
use sqlite_broker.Text.Search.{strip_prefix}
use sqlite_broker.Protocol.Message.{Request, exec, prepare, close}
use sqlite_broker.Protocol.Frame.{Codec, max_frame, frame, to_le_bytes, write_msg, read_msg}
use sqlite_broker.Protocol.Frame.RoundTrip.{ReadsBack, read_msg-write_msg}

abbrev bytes : Bytes
bytes = 0 ∷ 97 ∷ 255 ∷ 10 ∷ []

decode_base64-encode_base64_example : decode_base64 (encode_base64 bytes) ≡ some bytes
decode_base64-encode_base64_example =
    decode_base64-encode_base64 bytes (omega arith, (omega arith, (omega arith, (omega arith, tt))))

length-encode_base64_example : length (encode_base64 bytes) ≡ (length bytes + 2) / 3 * 4
length-encode_base64_example = length-encode_base64 bytes

abbrev base64_text : Bytes
base64_text = codes "AGH/"

abbrev decoded : Bytes
decoded = 0 ∷ 97 ∷ 255 ∷ []

decode_base64-Fits_example :
    All IsByte decoded
    × (length decoded ≤ length base64_text / 4 * 3)
    × (length base64_text % 4 ≡ 0)
unfolding decode_base64
decode_base64-Fits_example = decode_base64-Fits base64_text decoded refl

abbrev address : Bytes
address = codes "127.0.0.1:40001"

address-IsAddress : IsAddress address
unfolding valid_from has_space space_len is_ascii_space is_wide_space
address-IsAddress = record { valid = refl; filled = refl; one_word = refl }

parse_stub-format_stub_example : parse_stub (format_stub address) ≡ some address
parse_stub-format_stub_example = parse_stub-format_stub address address-IsAddress

abbrev stub : Bytes
stub = codes "SQLITEBROKER1\r\n  [::1]:9\t\nmore"

parse_stub-IsStub_example : IsStub stub (codes "[::1]:9")
unfolding parse_stub from_utf8 valid_from has_space lines trim stub_lines stub_word space_len
    is_ascii_space is_wide_space
parse_stub-IsStub_example = parse_stub-IsStub stub (codes "[::1]:9") refl

abbrev accented : Bytes
accented = 195 ∷ 169 ∷ []

from_utf8_lossy-valid_example : (from_utf8_lossy accented ≡ accented) × (accented ≡ accented)
unfolding from_utf8 valid_from
from_utf8_lossy-valid_example = from_utf8_lossy-valid accented accented refl

-- The part of serde_json that these messages need: statements without parameters and without a byte
-- that JSON escapes.
abbrev front : Bytes
front = codes "{\"op\":\"exec\",\"sql\":\""

abbrev back : Bytes
back = codes "\",\"params\":[]}"

abbrev close_json : Bytes
close_json = codes "{\"op\":\"close\"}"

abbrev read_exec : Option Bytes → Result Bytes Request
read_exec none = err (codes "unknown message")
read_exec (some more) = ok (exec (take (length more - length back) more) [])

abbrev requests : Codec Request
requests = record {
  to_vec = λ msg. elim msg [
    | exec sql params ↦ ok (front ++ (sql ++ back))
    | prepare sql ↦ err (codes "left out")
    | close ↦ ok close_json
  ];
  from_slice =
      λ body. if bytes_eq body close_json then ok close else read_exec (strip_prefix front body);
}

abbrev select_one : Request
select_one = exec (codes "SELECT 1") []

select_one-ReadsBack : ReadsBack requests select_one
unfolding strip_prefix
select_one-ReadsBack body h =
    let e : front ++ (codes "SELECT 1" ++ back) ≡ body = cc in rw (← e) refl

select_frame : Bytes
select_frame = to_le_bytes 42 ++ (front ++ (codes "SELECT 1" ++ back))

read_msg-write_msg_example :
    (read_msg requests (select_frame ++ (7 ∷ [])) ≡ ok (select_one, 7 ∷ []))
    × (length select_frame ≤ max_frame + 4)
unfolding write_msg frame to_le_bytes select_frame
read_msg-write_msg_example =
    read_msg-write_msg requests select_one select_frame (7 ∷ []) select_one-ReadsBack refl
