-- ===== src/Prelude/Bits.antt =====
-- `|` of a number shifted left and one that fits below it is their sum.
use Prim.Native.Nat.{bit_or, digits, bit_or-bitwise, max}
use native.Mathlib.Nat.{pow-suc}
use sqlite_broker.Prelude.{
  ℕ, zero, suc, ◌+◌, ◌*◌, ◌/◌, ◌^◌, ◌≤◌, ◌<◌, ◌≡◌, refl, ◌∙◌, ap, arith, Bool, true, ◌&&◌,
}

pub join_digits :
    (fuel a k q r : ℕ) → a ≤ fuel → a ≡ q * 2 ^ k → r < 2 ^ k → digits (λ y. y) max fuel a r ≡ a + r
join_digits zero zero k q r le e fits = omega arith
join_digits zero (suc a) k q r le e fits = absurd (omega arith)
join_digits (suc fuel) zero k q r le e fits = omega arith
join_digits (suc fuel) (suc a) zero q r le e fits = omega (
  arith,
  join_digits fuel (suc a / 2) zero (suc a / 2) (r / 2) (omega arith) (omega arith) (omega arith),
)
join_digits (suc fuel) (suc a) (suc k) q r le e fits =
    let two = pow-suc 2 k in
    let e' : suc a ≡ q * 2 ^ k * 2 = omega (arith, ap (λ (t : ℕ). q * t) two) in
    omega (
      arith,
      two,
      join_digits fuel (suc a / 2) k q (r / 2) (omega arith) (omega arith) (omega (arith, two)),
    )

pub or_fields : (k q r : ℕ) → r < 2 ^ k → bit_or (q * 2 ^ k) r ≡ q * 2 ^ k + r
or_fields k q r fits =
    bit_or-bitwise (q * 2 ^ k) r ∙ join_digits (q * 2 ^ k) (q * 2 ^ k) k q r (omega arith) refl fits

-- A test that holds at every number below a bound.
module _ (test : ℕ → Bool) where
  unfoldable pub all_below : ℕ → Bool
  all_below zero = true
  all_below (suc bound) = let earlier = all_below bound in earlier && test bound

  pub test-all_below : (bound at : ℕ) → at < bound → all_below bound ≡ true → test at ≡ true
  unfolding all_below
  test-all_below zero at below all = absurd (omega arith)
  test-all_below (suc bound) at below all = ground (arith, test-all_below bound at)
