-- ===== src/Base/Bits.antt =====
-- Laws of the bit operations at every width, from the equation for the lowest digit.
use Prim.Native.Nat.{digits, bit_and-bitwise, bit_or-bitwise}
use native.Mathlib.Nat.{le_refl, pow-suc}
use nfuzzer.Base.{
  ℕ, zero, suc, ◌+◌, ◌-◌, ◌*◌, ◌/◌, ◌%◌, ◌^◌, ◌≤◌, ◌<◌, min, max, bit_and, bit_or, ◌≡◌, ◌∙◌, sym,
  refl, ap, arith, Bool, true, ◌&&◌,
}

-- The native operations mean a recursion on binary digits that counts rounds; rounds beyond the
-- value's own size read nothing.
module _ (rest : ℕ → ℕ) (join : ℕ → ℕ → ℕ) where
  one_more_round : (n x y : ℕ) → x ≤ n → digits rest join (suc n) x y ≡ digits rest join n x y
  one_more_round zero (suc x) y bound = absurd (omega arith)
  one_more_round zero zero y bound = refl
  one_more_round (suc n) (suc x) y bound = rw (one_more_round n (suc x / 2) (y / 2) (omega arith))
  one_more_round (suc n) zero y bound = refl

  more_rounds : (k n x y : ℕ) → x ≤ n → digits rest join (k + n) x y ≡ digits rest join n x y
  more_rounds zero n x y bound =
      let none_more : 0 + n ≡ n = omega arith in ap (λ (r : ℕ). digits rest join r x y) none_more
  more_rounds (suc k) n x y bound =
      let one : suc k + n ≡ suc (k + n) = omega arith in
      ap (λ (r : ℕ). digits rest join r x y) one
      ∙ one_more_round (k + n) x y (omega arith)
      ∙ more_rounds k n x y bound

  pub half_rounds :
      (x y : ℕ) → digits rest join x (suc x / 2) y ≡ digits rest join (suc x / 2) (suc x / 2) y
  half_rounds x y =
      let spare : (x - suc x / 2) + suc x / 2 ≡ x = omega arith in
      ap (λ (n : ℕ). digits rest join n (suc x / 2) y) (sym spare)
      ∙ more_rounds (x - suc x / 2) (suc x / 2) (suc x / 2) y (le_refl _)

pub bit_and_step : (x y : ℕ) → bit_and x y ≡ bit_and (x / 2) (y / 2) * 2 + min (x % 2) (y % 2)
bit_and_step zero y = simp bit_and-bitwise (omega arith)
bit_and_step (suc x) y = simp bit_and-bitwise (omega (arith, half_rounds (λ d. 0) min x (y / 2)))

pub bit_or_step : (x y : ℕ) → bit_or x y ≡ max (x % 2) (y % 2) + 2 * bit_or (x / 2) (y / 2)
bit_or_step zero y = simp bit_or-bitwise (omega arith)
bit_or_step (suc x) y = simp bit_or-bitwise (omega (arith, half_rounds (λ d. d) max x (y / 2)))

mul-two-pow-suc : (k q : ℕ) → 2 ^ suc k * q ≡ 2 * (2 ^ k * q)
mul-two-pow-suc k q = omega (arith, ap (λ (t : ℕ). t * q) (pow-suc 2 k))

pub bit_and-zero_left : (b : ℕ) → bit_and 0 b ≡ 0
bit_and-zero_left b = bit_and-bitwise 0 b

-- Fields of k bits are combined one by one.
pub bit_and_fields :
    (k a b q r : ℕ)
    → a < 2 ^ k
    → b < 2 ^ k
    → bit_and (a + 2 ^ k * q) (b + 2 ^ k * r) ≡ bit_and a b + 2 ^ k * bit_and q r
bit_and_fields zero a b q r ha hb = ground (arith, bit_and-zero_left b)
bit_and_fields (suc k) a b q r ha hb = ground (
  arith,
  bit_and_step (a + 2 ^ suc k * q) (b + 2 ^ suc k * r),
  bit_and_step a b,
  mul-two-pow-suc k q,
  mul-two-pow-suc k r,
  mul-two-pow-suc k (bit_and q r),
  pow-suc 2 k,
  bit_and_fields k (a / 2) (b / 2) q r (omega (arith, pow-suc 2 k)) (omega (arith, pow-suc 2 k)),
)

bit_and-le_fuel : (n a b : ℕ) → a ≤ n → bit_and a b ≤ a
bit_and-le_fuel n zero b h = omega (arith, bit_and-zero_left b)
bit_and-le_fuel zero (suc a) b h = absurd (omega arith)
bit_and-le_fuel (suc n) (suc a) b h =
    omega (arith, bit_and_step (suc a) b, bit_and-le_fuel n (suc a / 2) (b / 2) (omega arith))

pub bit_and-le_left : (a b : ℕ) → bit_and a b ≤ a
bit_and-le_left a b = bit_and-le_fuel a a b (le_refl a)

bit_and-comm_fuel : (n a b : ℕ) → a ≤ n → b ≤ n → bit_and a b ≡ bit_and b a
bit_and-comm_fuel zero a b h g =
    let p : a ≡ 0 = omega arith in let q : b ≡ 0 = omega arith in rw (p, q)
bit_and-comm_fuel (suc n) a b h g = ground (
  arith,
  bit_and_step a b,
  bit_and_step b a,
  bit_and-comm_fuel n (a / 2) (b / 2) (omega arith) (omega arith),
)

pub bit_and_comm : (a b : ℕ) → bit_and a b ≡ bit_and b a
bit_and_comm a b = bit_and-comm_fuel (a + b) a b (omega arith) (omega arith)

pub bit_and-le_right : (a b : ℕ) → bit_and a b ≤ b
bit_and-le_right a b = rw (bit_and_comm a b) (bit_and-le_left b a)

half-complement : (k c : ℕ) → c < 2 ^ suc k → (2 ^ suc k - 1 - c) / 2 ≡ 2 ^ k - 1 - c / 2
half-complement k c h = omega (arith, pow-suc 2 k)

parity-complement : (k c : ℕ) → c < 2 ^ suc k → (2 ^ suc k - 1 - c) % 2 ≡ 1 - c % 2
parity-complement k c h = omega (arith, pow-suc 2 k)

-- What is kept under the complement of `c` is disjoint from `c`.
pub bit_and-complement : (k c v : ℕ) → c < 2 ^ k → bit_and c (bit_and v (2 ^ k - 1 - c)) ≡ 0
bit_and-complement zero c v hc = let p : c ≡ 0 = omega arith in rw p (bit_and-zero_left _)
bit_and-complement (suc k) c v hc = ground (
  arith,
  bit_and_step c (bit_and v (2 ^ suc k - 1 - c)),
  bit_and_step v (2 ^ suc k - 1 - c),
  half-complement k c hc,
  parity-complement k c hc,
  bit_and-complement k (c / 2) (v / 2) (omega (arith, pow-suc 2 k)),
)

-- All ones keep everything.
pub bit_and_ones : (k a : ℕ) → a < 2 ^ k → bit_and a (2 ^ k - 1) ≡ a
bit_and_ones zero a h = let p : a ≡ 0 = omega arith in rw p (bit_and-zero_left (2 ^ 0 - 1))
bit_and_ones (suc k) a h = ground (
  arith,
  bit_and_step a (2 ^ suc k - 1),
  half-complement k 0,
  parity-complement k 0,
  bit_and_ones k (a / 2) (omega (arith, pow-suc 2 k)),
)

-- Whatever bits a number keeps, it keeps them at once: masking twice is masking once.
pub bit_and_idem : (n a b : ℕ) → a ≤ n → bit_and (bit_and a b) b ≡ bit_and a b
bit_and_idem zero a b h =
    let p : a ≡ 0 = omega arith in rw (p, bit_and-zero_left b) (bit_and-zero_left b)
bit_and_idem (suc n) a b h = ground (
  arith,
  bit_and_step (bit_and a b) b,
  bit_and_step a b,
  bit_and_idem n (a / 2) (b / 2) (omega arith),
)

-- Clearing bits that are not set changes nothing.
pub complement_of_disjoint :
    (k c v : ℕ) → c < 2 ^ k → v < 2 ^ k → bit_and c v ≡ 0 → bit_and v (2 ^ k - 1 - c) ≡ v
complement_of_disjoint zero c v hc hv h = let p : v ≡ 0 = omega arith in rw p (bit_and-zero_left _)
complement_of_disjoint (suc k) c v hc hv h = ground (
  arith,
  bit_and_step c v,
  bit_and_step v (2 ^ suc k - 1 - c),
  half-complement k c hc,
  parity-complement k c hc,
  complement_of_disjoint k (c / 2) (v / 2) (omega (arith, pow-suc 2 k)) (omega (arith, pow-suc 2 k))
      (omega (arith, bit_and_step c v)),
)

-- A test that is run on each number below a bound.
unfoldable pub passes_below : (ℕ → Bool) → ℕ → Bool
passes_below test zero = true
passes_below test (suc bound) = passes_below test bound && test bound

pub passes_below-true :
    (test : ℕ → Bool) (bound : ℕ)
    → passes_below test bound ≡ true
    → (n : ℕ) → n < bound
    → test n ≡ true
unfolding passes_below
passes_below-true test zero run n small = absurd (omega arith)
passes_below-true test (suc bound) run n small = ground (arith, passes_below-true test bound _ n)

bit_or-zero_left : (b : ℕ) → bit_or 0 b ≡ b
bit_or-zero_left b = bit_or-bitwise 0 b

bit_or-zero_fuel : (n a : ℕ) → a ≤ n → bit_or a 0 ≡ a
bit_or-zero_fuel n zero h = bit_or-zero_left 0
bit_or-zero_fuel zero (suc a) h = absurd (omega arith)
bit_or-zero_fuel (suc n) (suc a) h =
    omega (arith, bit_or_step (suc a) 0, bit_or-zero_fuel n (suc a / 2) (omega arith))

pub bit_or-zero : (a : ℕ) → bit_or a 0 ≡ a
bit_or-zero a = bit_or-zero_fuel a a (le_refl a)

-- `|` of a shifted value and one that fits below it is their sum.
pub bit_or_fields : (k q r : ℕ) → r < 2 ^ k → bit_or (2 ^ k * q) r ≡ 2 ^ k * q + r
bit_or_fields zero q r h =
    let p : r ≡ 0 = omega arith in rw p (omega (arith, bit_or-zero (2 ^ 0 * q)))
bit_or_fields (suc k) q r h = ground (
  arith,
  bit_or_step (2 ^ suc k * q) r,
  mul-two-pow-suc k q,
  bit_or_fields k q (r / 2) (omega (arith, pow-suc 2 k)),
)
