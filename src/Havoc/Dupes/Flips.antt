-- ===== src/Havoc/Dupes/Flips.antt =====
-- could_be_bitflip against the list of the flips that the deterministic stages make.
use native.Mathlib.Nat.{pow-suc}
use nfuzzer.Base.{
  ◌∙◌, ℕ_discrete, ℕ, zero, suc, ◌+◌, ◌*◌, ◌/◌, ◌%◌, ◌^◌, ◌<◌, ◌≡◌, refl, ap, arith, true, ◌↔◌, ◌⊎◌,
  inl, inr,
}
use nfuzzer.Havoc.Dupes.{shift_to_first, could_be_bitflip}

-- The loop undoes a shift of an odd value.
shift_to_first-odd :
    (n k odd sh : ℕ)
    → k < n
    → odd % 2 ≡ 1
    → shift_to_first n (odd * 2 ^ k) sh ≡ record { xor_val = odd; sh = sh + k }
unfolding shift_to_first
shift_to_first-odd zero k odd sh h o = absurd (omega arith)
shift_to_first-odd (suc n) zero odd sh h o = ground arith
shift_to_first-odd (suc n) (suc k) odd sh h o =
    let half : odd * 2 ^ suc k ≡ 2 * (odd * 2 ^ k) =
      omega (arith, pow-suc 2 k, ap (λ (t : ℕ). odd * t) (pow-suc 2 k)) in
    let halved : odd * 2 ^ suc k / 2 ≡ odd * 2 ^ k = omega arith in
    ground (
      arith,
      halved,
      ap (λ (t : ℕ). shift_to_first n t (sh + 1)) halved,
      shift_to_first-odd n k odd (sh + 1) (omega arith) o,
    )

-- Every positive value is an odd one, shifted.
odd_part :
    (n x : ℕ)
    → 0 < x
    → x < 2 ^ n
    → (odd : ℕ) × (k : ℕ) × (odd % 2 ≡ 1) × (k < n) × (x ≡ odd * 2 ^ k)
odd_part zero x p h = absurd (omega arith)
odd_part (suc n) x p h = elim (ℕ_discrete (x % 2) 1) [
  | yes odd ↦ (x, 0, odd, omega arith, omega arith)
  | no even ↦
      let half = odd_part n (x / 2) (omega arith) (omega (arith, pow-suc 2 n)) in
      let doubled : x ≡ half.0 * 2 ^ suc half.1 =
        omega (arith, half.4, even, ap (λ (t : ℕ). half.0 * t) (pow-suc 2 half.1)) in
      (half.0, suc half.1, half.2, omega (arith, half.3), doubled)
]

-- The patterns of the deterministic flips: 1, 2 or 4 bits at any bit, and 8, 16 or 32 bits at a
-- whole byte.
abbrev pub IsPattern : ℕ → ℕ → Type 0
IsPattern bits sh =
    (bits ≡ 1 ⊎ (bits ≡ 3 ⊎ bits ≡ 15))
    ⊎ (sh % 8 ≡ 0) × (bits ≡ 0xff ⊎ (bits ≡ 0xffff ⊎ bits ≡ 0xffffffff))

IsPattern-odd : (bits sh : ℕ) → IsPattern bits sh → bits % 2 ≡ 1
IsPattern-odd bits sh p = ground arith

loop_of :
    (x bits sh : ℕ)
    → bits % 2 ≡ 1
    → sh < 32
    → x ≡ bits * 2 ^ sh
    → shift_to_first 32 x 0 ≡ record { xor_val = bits; sh = sh }
loop_of x bits sh odd h e =
    ap (λ (t : ℕ). shift_to_first 32 t 0) e
    ∙ shift_to_first-odd 32 sh bits 0 h odd
    ∙ ap (λ (t : ℕ). record { xor_val = bits; sh = t }) (omega arith)

-- What the loop finds decides the answer.
answer :
    (x bits sh : ℕ)
    → 0 < x
    → shift_to_first 32 x 0 ≡ record { xor_val = bits; sh = sh }
    → (could_be_bitflip x ≡ true) ↔ IsPattern bits sh
unfolding could_be_bitflip
answer x bits sh p e = simp e (ground arith)

sound :
    (x : ℕ)
    → x < 2 ^ 32
    → could_be_bitflip x ≡ true
    → x ≡ 0 ⊎ (bits : ℕ) × (sh : ℕ) × (sh < 32) × (x ≡ bits * 2 ^ sh) × IsPattern bits sh
sound zero h found = inl refl
sound (suc y) h found =
    let part = odd_part 32 (suc y) (omega arith) h in
    let loop = loop_of (suc y) part.0 part.1 part.2 part.3 part.4 in
    inr (part.0, part.1, part.3, part.4, (answer (suc y) part.0 part.1 (omega arith) loop).0 found)

complete :
    (x : ℕ)
    → x < 2 ^ 32
    → x ≡ 0 ⊎ (bits : ℕ) × (sh : ℕ) × (sh < 32) × (x ≡ bits * 2 ^ sh) × IsPattern bits sh
    → could_be_bitflip x ≡ true
unfolding could_be_bitflip
complete zero h found = refl
complete (suc y) h (inl z) = absurd (omega arith)
complete (suc y) h (inr (bits, sh, small, e, p)) =
    let loop = loop_of (suc y) bits sh (IsPattern-odd bits sh p) small e in
    (answer (suc y) bits sh (omega arith) loop).1 p

-- For a 32-bit value, could_be_bitflip returns 1 exactly when the value is 0 or one of the
-- patterns of the deterministic flips: 1, 3 or 15 shifted by any number of bits below 32, or a run
-- of 8, 16 or 32 ones shifted by whole bytes.
pub could_be_bitflip_lem :
    (x : ℕ)
    → x < 2 ^ 32
    → (could_be_bitflip x ≡ true)
      ↔ (x ≡ 0 ⊎ (bits : ℕ) × (sh : ℕ) × (sh < 32) × (x ≡ bits * 2 ^ sh) × IsPattern bits sh)
could_be_bitflip_lem x h = (sound x h, complete x h)
