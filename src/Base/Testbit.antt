-- ===== src/Base/Testbit.antt =====
-- Single bits of a number, and what the bit operations do to each.
use native.Mathlib.Nat.{pow-suc}
use nfuzzer.Base.{
  ℕ, zero, suc, ◌-◌, ◌*◌, ◌/◌, ◌%◌, ◌^◌, ◌≤◌, ◌<◌, ◌==◌, if◌then◌else◌, min, max, bit_and, bit_or,
  ◌≡◌, refl, arith, ap,
}
use nfuzzer.Base.Bits.{bit_and_step, bit_or_step, bit_and_comm, bit_and-zero_left}

-- `(w >> k) & 1`
unfoldable pub testbit : ℕ → ℕ → ℕ
testbit w zero = w % 2
testbit w (suc k) = testbit (w / 2) k

pub testbit-le : (w k : ℕ) → testbit w k ≤ 1
unfolding testbit
testbit-le w zero = omega arith
testbit-le w (suc k) = testbit-le (w / 2) k

pub testbit-zero : (k : ℕ) → testbit 0 k ≡ 0
unfolding testbit
testbit-zero zero = refl
testbit-zero (suc k) = testbit-zero k

pub testbit-bit_and : (a b k : ℕ) → testbit (bit_and a b) k ≡ min (testbit a k) (testbit b k)
unfolding testbit
testbit-bit_and a b zero = omega (arith, bit_and_step a b)
testbit-bit_and a b (suc k) = ground (arith, bit_and_step a b, testbit-bit_and (a / 2) (b / 2) k)

pub testbit-bit_or : (a b k : ℕ) → testbit (bit_or a b) k ≡ max (testbit a k) (testbit b k)
unfolding testbit
testbit-bit_or a b zero = omega (arith, bit_or_step a b)
testbit-bit_or a b (suc k) = ground (arith, bit_or_step a b, testbit-bit_or (a / 2) (b / 2) k)

pub testbit-complement :
    (n c k : ℕ) → c < 2 ^ n → k < n → testbit (2 ^ n - 1 - c) k ≡ 1 - testbit c k
unfolding testbit
testbit-complement zero c k h lt = absurd (omega arith)
testbit-complement (suc n) c zero h lt = omega (arith, pow-suc 2 n)
testbit-complement (suc n) c (suc k) h lt =
    ground
      (arith, testbit-complement n (c / 2) k (omega (arith, pow-suc 2 n)) (omega arith), halved)
  where
    halved : (2 ^ suc n - 1 - c) / 2 ≡ 2 ^ n - 1 - c / 2
    halved = omega (arith, pow-suc 2 n)

-- `1 << j` has one bit.
pub testbit-pow : (j k : ℕ) → testbit (2 ^ j) k ≡ (if j == k then 1 else 0)
unfolding testbit
testbit-pow zero zero = refl
testbit-pow zero (suc k) = ground (arith, testbit-zero k)
testbit-pow (suc j) zero = ground (arith, pow-suc 2 j)
testbit-pow (suc j) (suc k) = ground (arith, halved, testbit-pow j k)
  where
    halved : 2 ^ suc j / 2 ≡ 2 ^ j
    halved = omega (arith, pow-suc 2 j)

-- `w & (1 << k)` is not 0 exactly when bit k is set.
pub bit_and-pow : (w k : ℕ) → bit_and w (2 ^ k) ≡ testbit w k * 2 ^ k
unfolding testbit
bit_and-pow w zero =
    omega (arith, bit_and_step w 1, bit_and_comm (w / 2) 0, bit_and-zero_left (w / 2))
bit_and-pow w (suc k) = ground (
  arith,
  bit_and_step w (2 ^ suc k),
  halved,
  bit_and-pow (w / 2) k,
  ap (λ (t : ℕ). testbit (w / 2) k * t) (pow-suc 2 k),
)
  where
    halved : (2 ^ suc k / 2 ≡ 2 ^ k) × (2 ^ suc k % 2 ≡ 0)
    halved = (omega (arith, pow-suc 2 k), omega (arith, pow-suc 2 k))
