-- ===== src/Hammer/Rng/Live.antt =====
-- The generator never gets stuck.
use Prim.Native.Nat.{bit_xor, bit_xor-bitwise, bit_or, bit_or-bitwise, max, digits, differ}
use sqlite_broker.Prelude.Bits.{join_digits}
use native.Mathlib.Nat.{pow-suc}
use sqlite_broker.Prelude.{
  ℕ, zero, suc, ◌+◌, ◌*◌, ◌/◌, ◌%◌, ◌^◌, ◌≤◌, ◌<◌, ◌≡◌, refl, sym, ap, ◌∙◌, arith,
}
use sqlite_broker.Hammer.Rng.{shl_64, shr_64, first_xor, second_xor, third_xor, next, below, seeded}

pos_of : (n : ℕ) → (n ≡ 0 → ⊥) → 0 < n
pos_of zero h = absurd (h refl)
pos_of (suc n) h = omega arith

differ-zero : (x y : ℕ) → differ x y ≡ 0 → x ≡ y
differ-zero zero y h = sym h
differ-zero (suc x) zero h = h
differ-zero (suc x) (suc y) h = ap suc (differ-zero x y h)

differ-lt : (x y : ℕ) → x < 2 → y < 2 → differ x y < 2
differ-lt zero y h k = k
differ-lt (suc x) zero h k = h
differ-lt (suc x) (suc y) h k = differ-lt x y (omega arith) (omega arith)

xor_digits-zero : (fuel a b : ℕ) → a ≤ fuel → digits (λ c. c) differ fuel a b ≡ 0 → a ≡ b
xor_digits-zero zero zero b le h = sym h
xor_digits-zero zero (suc a) b le h = absurd (omega arith)
xor_digits-zero (suc fuel) zero b le h = sym h
xor_digits-zero (suc fuel) (suc a) b le h =
    let low = differ-zero (suc a % 2) (b % 2) (omega arith) in
    let high = xor_digits-zero fuel (suc a / 2) (b / 2) (omega arith) (omega arith) in omega arith

xor_digits-lt :
    (fuel k a b : ℕ) → a ≤ fuel → a < 2 ^ k → b < 2 ^ k → digits (λ c. c) differ fuel a b < 2 ^ k
xor_digits-lt zero k a b le h l = l
xor_digits-lt (suc fuel) k zero b le h l = l
xor_digits-lt (suc fuel) zero (suc a) b le h l = absurd (omega arith)
xor_digits-lt (suc fuel) (suc k) (suc a) b le h l =
    let two = pow-suc 2 k in
    let low = differ-lt (suc a % 2) (b % 2) (omega arith) (omega arith) in
    let high =
      xor_digits-lt fuel k (suc a / 2) (b / 2) (omega arith) (omega (arith, two))
        (omega (arith, two)) in
    omega (arith, two)

xor-zero : (a b : ℕ) → bit_xor a b ≡ 0 → a ≡ b
xor-zero a b h = xor_digits-zero a a b (omega arith) (sym (bit_xor-bitwise a b) ∙ h)

xor-lt : (k a b : ℕ) → a < 2 ^ k → b < 2 ^ k → bit_xor a b < 2 ^ k
xor-lt k a b h l = omega (arith, bit_xor-bitwise a b, xor_digits-lt a k a b (omega arith) h l)

abbrev pub IsLive : ℕ → Type 0
IsLive x = (0 < x) × (x < 2 ^ 64)

first-IsLive : (x : ℕ) → IsLive x → IsLive (first_xor x)
first-IsLive x (some_, fits) = (
  pos_of (first_xor x) (λ e. absurd (omega (arith, xor-zero x (shl_64 x 13) e))),
  xor-lt 64 x (shl_64 x 13) fits (omega arith),
)

second-IsLive : (x : ℕ) → IsLive x → IsLive (second_xor x)
second-IsLive x (some_, fits) = (
  pos_of (second_xor x) (λ e. absurd (omega (arith, xor-zero x (shr_64 x 7) e))),
  xor-lt 64 x (shr_64 x 7) fits (omega arith),
)

third-IsLive : (x : ℕ) → IsLive x → IsLive (third_xor x)
third-IsLive x (some_, fits) = (
  pos_of (third_xor x) (λ e. absurd (omega (arith, xor-zero x (shl_64 x 17) e))),
  xor-lt 64 x (shl_64 x 17) fits (omega arith),
)

mod_small : (m n : ℕ) → 0 < n → n < 2 ^ 32 → m % n % 2 ^ 32 < n
mod_small m n pos_ small = grind arith

max-one : (b : ℕ) → b < 2 → max b 1 ≡ 1
max-one b h = ground arith

or_one : (seed : ℕ) → bit_or seed 1 ≡ seed / 2 * 2 + 1
or_one zero = refl
or_one (suc seed) = omega (
  arith,
  bit_or-bitwise (suc seed) 1,
  join_digits seed (suc seed / 2) 0 (suc seed / 2) 0 (omega arith) (omega arith) (omega arith),
  max-one (suc seed % 2) (omega arith),
)

-- The state that a seed gives is no 0.
pub seeded-IsLive : (seed : ℕ) → seed < 2 ^ 64 → IsLive (seeded seed)
unfolding seeded
seeded-IsLive seed h = (omega (arith, or_one seed), omega (arith, or_one seed))

-- A state of the generator that is not 0, and fits 64 bits, is followed by such a state, and a number
-- that is drawn below a positive `u32` is below it.
pub below-IsLive :
    (x n : ℕ) → IsLive x → 0 < n → n < 2 ^ 32 → IsLive (below x n).1 × ((below x n).0 < n)
unfolding below next
below-IsLive x n live pos_ small =
    (third-IsLive _ (second-IsLive _ (first-IsLive x live)), mod_small (next x) n pos_ small)

-- The state after so many draws.
unfoldable pub drawn : ℕ → ℕ → ℕ
unfolding next seeded
drawn seed zero = seeded seed
drawn seed (suc draws) = next (drawn seed draws)

-- Whatever the seed, and however many numbers have been drawn, the generator's state is not 0 and
-- fits 64 bits, and a number drawn below a positive `u32` is below it.
pub drawn-IsLive :
    (seed draws n : ℕ)
    → seed < 2 ^ 64
    → 0 < n
    → n < 2 ^ 32
    → IsLive (drawn seed draws) × ((below (drawn seed draws) n).0 < n)
unfolding drawn below
drawn-IsLive seed zero n h pos_ small =
    (seeded-IsLive seed h, mod_small (next (seeded seed)) n pos_ small)
drawn-IsLive seed (suc draws) n h pos_ small = (
  (below-IsLive (drawn seed draws) n (drawn-IsLive seed draws n h pos_ small).0 pos_ small).0,
  mod_small (next (next (drawn seed draws))) n pos_ small,
)
