-- ===== src/Text/Unsigned.antt =====
-- `str::parse` of the unsigned integers.
use sqlite_broker.Prelude.{
  ℕ, ◌+◌, ◌*◌, ◌-◌, ◌^◌, ◌==◌, ltb, leb, not, ◌&&◌, if◌then◌else◌, [], ◌∷◌, is_empty,
}
use sqlite_broker.Prelude.Result.{Result, ok, err}
use sqlite_broker.Text.{Bytes, codes}

-- The digits of a number below the limit, and the messages of `ParseIntError`.
unfoldable pub parse_digits : (limit acc : ℕ) → Bytes → Result Bytes ℕ
parse_digits limit acc [] = ok acc
parse_digits limit acc (b ∷ bs) =
    let next = acc * 10 + (b - b'0') in
    let rest = parse_digits limit next bs in
    if not (leb b'0' b && leb b b'9')
    then err (codes "invalid digit found in string")
    else if ltb next limit
    then rest
    else err (codes "number too large to fit in target type")

-- An optional plus, and digits.
unfoldable pub parse_below : (limit : ℕ) → Bytes → Result Bytes ℕ
unfolding parse_digits
parse_below limit [] = err (codes "cannot parse integer from empty string")
parse_below limit (b ∷ bs) =
    if (b == b'+') && not (is_empty bs)
    then parse_digits limit 0 bs
    else parse_digits limit 0 (b ∷ bs)

-- `str::parse::<u64>`
abbrev pub parse_u64 : Bytes → Result Bytes ℕ
parse_u64 = parse_below (2 ^ 64)

-- `str::parse::<u32>`
abbrev pub parse_u32 : Bytes → Result Bytes ℕ
parse_u32 = parse_below (2 ^ 32)
