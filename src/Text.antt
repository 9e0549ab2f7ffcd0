-- ===== src/Text.antt =====
-- The operations of Rust's standard library on strings that the program uses: a `String` or `&str`
-- is the list of its UTF-8 bytes.
pub mod Utf8
pub mod Space
pub mod Lines
pub mod Decimal
pub mod Unsigned
pub mod Search
use Prim.Native.Char.{code}
use Prim.Native.String.{String}
use sqlite_broker.Prelude.{ℕ, List, [], ◌∷◌, ◌++◌}

abbrev pub Bytes : Type 0
Bytes = List ℕ

-- The bytes of an ASCII literal.
abbrev pub codes : String → Bytes
codes String.[] = []
codes (String.◌∷◌ c s) = code c ∷ codes s

-- `[..].join(sep)`
unfoldable pub join : Bytes → List Bytes → Bytes
join sep [] = []
join sep (x ∷ []) = x
join sep (x ∷ y ∷ rest) = x ++ (sep ++ join sep (y ∷ rest))
