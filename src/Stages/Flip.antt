-- ===== src/Stages/Flip.antt =====
-- FLIP_BIT of fuzzer/afl-fuzz.c, and writes of words into a buffer.
use nfuzzer.Base.{
  ℕ, zero, suc, ◌+◌, ◌*◌, ◌/◌, ◌%◌, ◌^◌, ◌≤◌, ◌<◌, ◌≡◌, ◌≢◌, refl, sym, ap, ◌∙◌, arith, bit_xor,
  List, [], ◌∷◌, length, get_or, set, length-set, get_or-set_self, get_or-set_ne, ℕ_discrete,
}
use nfuzzer.Base.Xor.{bit_xor-twice, bit_xor-swap}

-- `_ar[b >> 3] ^= 128 >> (b & 7)`
unfoldable pub flip_bit : List ℕ → ℕ → List ℕ
flip_bit ar b = set ar (b / 8) (bit_xor (get_or ar (b / 8) 0) (128 / 2 ^ (b % 8)))

-- FLIP_BIT at `n` bits from `b` on.
unfoldable pub flip_bits : List ℕ → ℕ → ℕ → List ℕ
flip_bits ar b zero = ar
flip_bits ar b (suc n) = flip_bits (flip_bit ar b) (b + 1) n

module _ {ℓ} {A : Type ℓ} where
  pub set-set_self : (xs : List A) (i : ℕ) (v w : A) → set (set xs i v) i w ≡ set xs i w
  set-set_self [] i v w = refl
  set-set_self (x ∷ xs) zero v w = refl
  set-set_self (x ∷ xs) (suc i) v w = ap (λ t. x ∷ t) (set-set_self xs i v w)

  set-set_ne :
      (xs : List A) (i j : ℕ) (v w : A) → i ≢ j → set (set xs i v) j w ≡ set (set xs j w) i v
  set-set_ne [] i j v w h = refl
  set-set_ne (x ∷ xs) zero zero v w h = absurd (h refl)
  set-set_ne (x ∷ xs) zero (suc j) v w h = refl
  set-set_ne (x ∷ xs) (suc i) zero v w h = refl
  set-set_ne (x ∷ xs) (suc i) (suc j) v w h =
      ap (λ t. x ∷ t) (set-set_ne xs i j v w (λ e. h (ap suc e)))

  pub set-get_or : (xs : List A) (i : ℕ) (d : A) → set xs i (get_or xs i d) ≡ xs
  set-get_or [] i d = refl
  set-get_or (x ∷ xs) zero d = refl
  set-get_or (x ∷ xs) (suc i) d = ap (λ t. x ∷ t) (set-get_or xs i d)

  get_or_outside : (xs : List A) (i : ℕ) (v d : A) → length xs ≤ i → set xs i v ≡ xs
  get_or_outside [] i v d h = refl
  get_or_outside (x ∷ xs) zero v d h = absurd (omega arith)
  get_or_outside (x ∷ xs) (suc i) v d h = ap (λ t. x ∷ t) (get_or_outside xs i v d (omega arith))

pub flip_bit-twice : (ar : List ℕ) (b : ℕ) → b / 8 < length ar → flip_bit (flip_bit ar b) b ≡ ar
unfolding flip_bit
flip_bit-twice ar b h =
    let i = b / 8 in
    let m = 128 / 2 ^ (b % 8) in
    let v = bit_xor (get_or ar i 0) m in
    ap (λ (t : ℕ). set (set ar i v) i (bit_xor t m)) (get_or-set_self ar i v 0 h)
    ∙ set-set_self ar i v (bit_xor v m)
    ∙ ap (λ (t : ℕ). set ar i t) (bit_xor-twice (get_or ar i 0) m)
    ∙ set-get_or ar i 0

flip_same_byte :
    (ar : List ℕ) (b c : ℕ)
    → b / 8 < length ar
    → b / 8 ≡ c / 8
    → flip_bit (flip_bit ar b) c
      ≡ set ar
          (b / 8)
          (bit_xor (bit_xor (get_or ar (b / 8) 0) (128 / 2 ^ (b % 8))) (128 / 2 ^ (c % 8)))
unfolding flip_bit
flip_same_byte ar b c h e =
    let i = b / 8 in
    let v = bit_xor (get_or ar i 0) (128 / 2 ^ (b % 8)) in
    let m = 128 / 2 ^ (c % 8) in
    ap (λ (j : ℕ). set (set ar i v) j (bit_xor (get_or (set ar i v) j 0) m)) (sym e)
    ∙ ap (λ (t : ℕ). set (set ar i v) i (bit_xor t m)) (get_or-set_self ar i v 0 h)
    ∙ set-set_self ar i v (bit_xor v m)

flip_other_byte :
    (ar : List ℕ) (b c : ℕ)
    → b / 8 ≢ c / 8
    → flip_bit (flip_bit ar b) c ≡ flip_bit (flip_bit ar c) b
unfolding flip_bit
flip_other_byte ar b c n =
    let i = b / 8 in
    let j = c / 8 in
    let mi = 128 / 2 ^ (b % 8) in
    let mj = 128 / 2 ^ (c % 8) in
    let v = bit_xor (get_or ar i 0) mi in
    let w = bit_xor (get_or ar j 0) mj in
    ap (λ (t : ℕ). set (set ar i v) j (bit_xor t mj)) (get_or-set_ne ar i j v 0 n)
    ∙ set-set_ne ar i j v w n
    ∙ ap (λ (t : ℕ). set (set ar j w) i (bit_xor t mi))
        (sym (get_or-set_ne ar j i w 0 (λ e. n (sym e))))

pub flip_bit-swap :
    (ar : List ℕ) (b c : ℕ)
    → b / 8 < length ar
    → c / 8 < length ar
    → flip_bit (flip_bit ar b) c ≡ flip_bit (flip_bit ar c) b
flip_bit-swap ar b c hb hc = elim (ℕ_discrete (b / 8) (c / 8)) [
  | yes e ↦
      flip_same_byte ar b c hb e
      ∙ ap (set ar (b / 8))
          (bit_xor-swap (get_or ar (b / 8) 0) (128 / 2 ^ (b % 8)) (128 / 2 ^ (c % 8)))
      ∙ ap
          (λ (j : ℕ).
            set ar j (bit_xor (bit_xor (get_or ar j 0) (128 / 2 ^ (c % 8))) (128 / 2 ^ (b % 8))))
          e
      ∙ sym (flip_same_byte ar c b hc (sym e))
  | no n ↦ flip_other_byte ar b c n
]

length-flip_bit : (ar : List ℕ) (b : ℕ) → length (flip_bit ar b) ≡ length ar
unfolding flip_bit
length-flip_bit ar b = length-set ar (b / 8) _

pub length-flip_bits : (ar : List ℕ) (b n : ℕ) → length (flip_bits ar b n) ≡ length ar
unfolding flip_bits
length-flip_bits ar b zero = refl
length-flip_bits ar b (suc n) = length-flip_bits (flip_bit ar b) (b + 1) n ∙ length-flip_bit ar b

flip_bits-flip_bit :
    (ar : List ℕ) (b c n : ℕ)
    → b < 8 * length ar
    → c + n ≤ 8 * length ar
    → flip_bit (flip_bits ar c n) b ≡ flip_bits (flip_bit ar b) c n
unfolding flip_bits
flip_bits-flip_bit ar b c zero hb hc = refl
flip_bits-flip_bit ar b c (suc n) hb hc =
    flip_bits-flip_bit (flip_bit ar c) b (c + 1) n (omega (arith, length-flip_bit ar c))
      (omega (arith, length-flip_bit ar c))
    ∙ ap (λ (t : List ℕ). flip_bits t (c + 1) n) (flip_bit-swap ar c b (omega arith) (omega arith))

-- Flipping the same run of bits again gives back the buffer.
pub flip_bits-twice :
    (ar : List ℕ) (b n : ℕ) → b + n ≤ 8 * length ar → flip_bits (flip_bits ar b n) b n ≡ ar
unfolding flip_bits
flip_bits-twice ar b zero h = refl
flip_bits-twice ar b (suc n) h =
    ap (λ (t : List ℕ). flip_bits t (b + 1) n)
      (flip_bits-flip_bit (flip_bit ar b) b (b + 1) n (omega (arith, length-flip_bit ar b))
        (omega (arith, length-flip_bit ar b)))
    ∙ ap (λ (t : List ℕ). flip_bits (flip_bits t (b + 1) n) (b + 1) n)
        (flip_bit-twice ar b (omega arith))
    ∙ flip_bits-twice ar (b + 1) n (omega arith)
