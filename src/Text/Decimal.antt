-- ===== src/Text/Decimal.antt =====
-- Decimal numbers, as `{}` prints them.
use sqlite_broker.Prelude.{
  ℕ, zero, suc, ◌+◌, ◌/◌, ◌%◌, List, [], ◌∷◌, ◌==◌, if◌then◌else◌, ℤ, pos, negsuc,
}

-- The digits go in front of `rest`. `n / 10` is less than `n`, so `n` rounds and one are enough.
unfoldable pub decimal_loop : ℕ → ℕ → List ℕ → List ℕ
decimal_loop zero n rest = rest
decimal_loop (suc rounds) n rest =
    let shown = (b'0' + n % 10) ∷ rest in
    let more = decimal_loop rounds (n / 10) shown in if n / 10 == 0 then shown else more

unfoldable pub decimal : ℕ → List ℕ
unfolding decimal_loop
decimal n = decimal_loop (suc n) n []

unfoldable pub decimal_int : ℤ → List ℕ
unfolding decimal
decimal_int (pos n) = decimal n
decimal_int (negsuc n) = b'-' ∷ decimal (suc n)
