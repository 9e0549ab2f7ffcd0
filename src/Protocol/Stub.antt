-- ===== src/Protocol/Stub.antt =====
-- `format_stub` and `parse_stub` of protocol/src/lib.rs: the text file that stands in for the database.
pub mod RoundTrip
use sqlite_broker.Prelude.{
  ℕ, List, [], ◌∷◌, ◌++◌, ◌||◌, if◌then◌else◌, Option, none, some, bytes_eq, is_empty, ◌>>=◌,
}
use sqlite_broker.Text.{Bytes, codes}
use sqlite_broker.Text.Space.{trim, has_space}
use sqlite_broker.Text.Lines.{lines}
use sqlite_broker.Text.Utf8.{from_utf8}

abbrev pub stub_magic : Bytes
stub_magic = codes "SQLITEBROKER1"

unfoldable pub format_stub : Bytes → Bytes
format_stub addr = stub_magic ++ (10 ∷ (addr ++ (10 ∷ [])))

-- The address on the second line, if it is one word.
unfoldable pub stub_word : Bytes → Option Bytes
stub_word line = let addr = trim line in if is_empty addr || has_space addr then none else some addr

unfoldable pub stub_lines : List Bytes → Option Bytes
unfolding stub_word
stub_lines (first ∷ second ∷ more) = if bytes_eq first stub_magic then stub_word second else none
stub_lines _ = none

unfoldable pub parse_stub : Bytes → Option Bytes
parse_stub bytes = do text ← from_utf8 bytes; stub_lines (lines text)
