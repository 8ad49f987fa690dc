-- ===== src/Base/Xor.antt =====
-- Laws of `^` at every width: it is undone by itself, and two masks may change places.
use native.Mathlib.Nat.{pow-suc}
use Prim.Native.Nat.{bit_xor-bitwise, differ}
use nfuzzer.Base.{ℕ, zero, suc, ◌+◌, ◌*◌, ◌/◌, ◌%◌, ◌≤◌, ◌≡◌, refl, arith, bit_xor, ◌<◌, ◌^◌}
use nfuzzer.Base.Bits.{half_rounds}

differ_digits : (a b : ℕ) → a < 2 → b < 2 → differ a b ≡ (a + b) % 2
differ_digits zero b p q = omega arith
differ_digits (suc zero) zero p q = refl
differ_digits (suc zero) (suc zero) p q = refl
differ_digits (suc zero) (suc (suc b)) p q = absurd (omega arith)
differ_digits (suc (suc a)) b p q = absurd (omega arith)

pub bit_xor_step : (x y : ℕ) → bit_xor x y ≡ (x % 2 + y % 2) % 2 + 2 * bit_xor (x / 2) (y / 2)
bit_xor_step zero y = simp bit_xor-bitwise (omega arith)
bit_xor_step (suc x) y = simp bit_xor-bitwise (
    omega (
      arith,
      half_rounds (λ d. d) differ x (y / 2),
      differ_digits (suc x % 2) (y % 2) (omega arith) (omega arith),
    ))

bit_xor-twice_fuel : (n a m : ℕ) → a + m ≤ n → bit_xor (bit_xor a m) m ≡ a
bit_xor-twice_fuel zero a m h =
    let p : a ≡ 0 = omega arith in let q : m ≡ 0 = omega arith in rw (p, q) refl
bit_xor-twice_fuel (suc n) a m h =
    ground
      (arith, bit_xor_step (bit_xor a m) m, bit_xor_step a m, bit_xor-twice_fuel n (a / 2) (m / 2))

pub bit_xor-twice : (a m : ℕ) → bit_xor (bit_xor a m) m ≡ a
bit_xor-twice a m = bit_xor-twice_fuel (a + m) a m (omega arith)

bit_xor-swap_fuel :
    (n a m k : ℕ) → a + m + k ≤ n → bit_xor (bit_xor a m) k ≡ bit_xor (bit_xor a k) m
bit_xor-swap_fuel zero a m k h =
    let p : m ≡ 0 = omega arith in let q : k ≡ 0 = omega arith in rw (p, q) refl
bit_xor-swap_fuel (suc n) a m k h = ground (
  arith,
  bit_xor_step (bit_xor a m) k,
  bit_xor_step a m,
  bit_xor_step (bit_xor a k) m,
  bit_xor_step a k,
  bit_xor-swap_fuel n (a / 2) (m / 2) (k / 2),
)

pub bit_xor-swap : (a m k : ℕ) → bit_xor (bit_xor a m) k ≡ bit_xor (bit_xor a k) m
bit_xor-swap a m k = bit_xor-swap_fuel (a + m + k) a m k (omega arith)

-- The result needs no more bits than the operands.
pub bit_xor-lt : (w a m : ℕ) → a < 2 ^ w → m < 2 ^ w → bit_xor a m < 2 ^ w
bit_xor-lt zero a m p q =
    let e : a ≡ 0 = omega arith in let f : m ≡ 0 = omega arith in rw (e, f) (omega arith)
bit_xor-lt (suc w) a m p q = omega (
  arith,
  bit_xor_step a m,
  pow-suc 2 w,
  bit_xor-lt w (a / 2) (m / 2) (omega (arith, pow-suc 2 w)) (omega (arith, pow-suc 2 w)),
)
