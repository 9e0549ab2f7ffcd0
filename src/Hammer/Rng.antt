-- ===== src/Hammer/Rng.antt =====
-- `Rng` of server/src/hammer.rs: numbers of 64 bits by three shifts and exclusive ors.
pub mod Live
use Prim.Native.Nat.{bit_or, bit_xor}
use sqlite_broker.Prelude.{ℕ, ◌*◌, ◌/◌, ◌%◌, ◌^◌}

-- `x << k` of a `u64`: what goes over the top is lost.
abbrev pub shl_64 : ℕ → ℕ → ℕ
shl_64 x k = (x * 2 ^ k) % 2 ^ 64

abbrev pub shr_64 : ℕ → ℕ → ℕ
shr_64 x k = x / 2 ^ k

abbrev pub first_xor : ℕ → ℕ
first_xor x = bit_xor x (shl_64 x 13)

abbrev pub second_xor : ℕ → ℕ
second_xor x = bit_xor x (shr_64 x 7)

abbrev pub third_xor : ℕ → ℕ
third_xor x = bit_xor x (shl_64 x 17)

-- `Rng::next`: the state after it, which is the answer too.
unfoldable pub next : ℕ → ℕ
next x = third_xor (second_xor (first_xor x))

-- `Rng::below`: the answer and the state after it. `% 0` panics, and is not called.
unfoldable pub below : ℕ → ℕ → ℕ × ℕ
unfolding next
below x n = ((next x % n) % 2 ^ 32, next x)

-- `Rng(seed | 1)`
unfoldable pub seeded : ℕ → ℕ
seeded seed = bit_or seed 1
