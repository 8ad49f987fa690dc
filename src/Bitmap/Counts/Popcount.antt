-- ===== src/Bitmap/Counts/Popcount.antt =====
-- The branch-free bit count of a 32-bit word, step by step on its bytes.
use nfuzzer.Base.{
  ℕ, ◌+◌, ◌-◌, ◌*◌, ◌/◌, ◌%◌, ◌^◌, ◌==◌, ◌≤◌, ◌<◌, bit_and, true, ◌&&◌, leb, List, [], ◌∷◌, map,
  ◌≡◌, refl, ap, ◌∙◌, arith, ==_iff,
}
use nfuzzer.Base.Bits.{bit_and_fields, passes_below, passes_below-true}
use nfuzzer.Base.Bytes.{load, IsBytes, All}
use nfuzzer.Bitmap.Counts.{pair_sums, nibble_sums, word_sum, count_bits_word, add32}

-- The number of ones of a byte, by definition.
unfoldable pub ones : ℕ → ℕ
ones b =
    b % 2 + b / 2 % 2 + b / 4 % 2 + b / 8 % 2 + b / 16 % 2 + b / 32 % 2 + b / 64 % 2 + b / 128 % 2

pairs : ℕ → ℕ
pairs b = b - bit_and (b / 2) 0x55

nibbles : ℕ → ℕ
nibbles c = bit_and c 0x33 + bit_and (c / 4) 0x33

mask_word : ℕ → List ℕ → ℕ
mask_word m [] = 0
mask_word m (x ∷ xs) = m + 256 * mask_word m xs

-- A shift brings in bits of the byte above, and the mask drops them.
half_table : passes_below (λ n. bit_and (n / 2) 0x55 == bit_and (n % 256 / 2) 0x55) 512 ≡ true
unfolding passes_below
half_table = refl

quarter_table : passes_below (λ n. bit_and (n / 4) 0x33 == bit_and (n % 256 / 4) 0x33) 1024 ≡ true
unfolding passes_below
quarter_table = refl

low_table : passes_below (λ n. bit_and n 0x0f == n % 16) 256 ≡ true
unfolding passes_below
low_table = refl

and_half :
    (xs : List ℕ)
    → IsBytes xs
    → bit_and (load xs / 2) (mask_word 0x55 xs) ≡ load (map (λ b. bit_and (b / 2) 0x55) xs)
unfolding load mask_word
and_half [] h = refl
and_half (b ∷ bs) h =
    ap (λ n. bit_and n (mask_word 0x55 (b ∷ bs))) shifted
    ∙ bit_and_fields 8 ((b + 256 * (load bs % 2)) / 2) 0x55 (load bs / 2) (mask_word 0x55 bs)
        (omega (arith, h.0)) (omega arith)
    ∙ ground (
      arith,
      passes_below-true _ 512 half_table (b + 256 * (load bs % 2)) (omega (arith, h.0)),
      and_half bs h.1,
    )
  where
    shifted : (b + 256 * load bs) / 2 ≡ (b + 256 * (load bs % 2)) / 2 + 2 ^ 8 * (load bs / 2)
    shifted = omega arith

and_quarter :
    (xs : List ℕ)
    → IsBytes xs
    → bit_and (load xs / 4) (mask_word 0x33 xs) ≡ load (map (λ b. bit_and (b / 4) 0x33) xs)
unfolding load mask_word
and_quarter [] h = refl
and_quarter (b ∷ bs) h =
    ap (λ n. bit_and n (mask_word 0x33 (b ∷ bs))) shifted
    ∙ bit_and_fields 8 ((b + 256 * (load bs % 4)) / 4) 0x33 (load bs / 4) (mask_word 0x33 bs)
        (omega (arith, h.0)) (omega arith)
    ∙ ground (
      arith,
      passes_below-true _ 1024 quarter_table (b + 256 * (load bs % 4)) (omega (arith, h.0)),
      and_quarter bs h.1,
    )
  where
    shifted : (b + 256 * load bs) / 4 ≡ (b + 256 * (load bs % 4)) / 4 + 2 ^ 8 * (load bs / 4)
    shifted = omega arith

and_mask :
    (m : ℕ) (xs : List ℕ)
    → m < 256
    → IsBytes xs
    → bit_and (load xs) (mask_word m xs) ≡ load (map (λ b. bit_and b m) xs)
unfolding load mask_word
and_mask m [] hm h = refl
and_mask m (b ∷ bs) hm h =
    bit_and_fields 8 b m (load bs) (mask_word m bs) h.0 hm ∙ omega (arith, and_mask m bs hm h.1)

-- Both nibbles are at most 4, as the nibble sums of a byte are.
abbrev SmallNibbles : ℕ → Type 0
SmallNibbles c = (c % 16 ≤ 4) × (c / 16 ≤ 4)

low_nibble : (xs : List ℕ) → All SmallNibbles xs → load xs % 16 ≤ 4
unfolding load
low_nibble [] h = omega arith
low_nibble (b ∷ bs) h = omega (arith, h.0)

add_nibbles :
    (xs : List ℕ)
    → All SmallNibbles xs
    → bit_and (load xs + load xs / 16) (mask_word 0x0f xs) ≡ load (map (λ c. c % 16 + c / 16) xs)
unfolding load mask_word
add_nibbles [] h = refl
add_nibbles (c ∷ cs) h =
    ap (λ n. bit_and n (mask_word 0x0f (c ∷ cs))) shifted
    ∙ bit_and_fields 8 (c + c / 16 + 16 * (load cs % 16)) 0x0f (load cs + load cs / 16)
        (mask_word 0x0f cs) (omega (arith, h.0, low_nibble cs h.1)) (omega arith)
    ∙ ground (
      arith,
      (==_iff _ _).0 (
          passes_below-true _ 256 low_table (c + c / 16 + 16 * (load cs % 16))
            (omega (arith, h.0, low_nibble cs h.1))),
      add_nibbles cs h.1,
    )
  where
    shifted :
        c + 256 * load cs + (c + 256 * load cs) / 16
        ≡ c + c / 16 + 16 * (load cs % 16) + 2 ^ 8 * (load cs + load cs / 16)
    shifted = omega arith

ones_table :
    passes_below (λ b. nibbles (pairs b) % 16 + nibbles (pairs b) / 16 == ones b) 256 ≡ true
unfolding passes_below nibbles pairs ones
ones_table = refl

bounds_table :
    passes_below
      (λ b.
        leb (bit_and (b / 2) 0x55) b
        && leb (nibbles (pairs b) % 16) 4
        && leb (nibbles (pairs b) / 16) 4)
      256
    ≡ true
unfolding passes_below nibbles pairs
bounds_table = refl

byte_bounds :
    (b : ℕ)
    → b < 256
    → (bit_and (b / 2) 0x55 ≤ b)
      × SmallNibbles (nibbles (pairs b))
      × (nibbles (pairs b) % 16 + nibbles (pairs b) / 16 ≡ ones b)
byte_bounds b h =
    ground (arith, passes_below-true _ 256 bounds_table b h, passes_below-true _ 256 ones_table b h)

pairs-lt : (b : ℕ) → b < 256 → pairs b < 256
unfolding pairs
pairs-lt b h = omega arith

module _ (a b c d : ℕ) (ha : a < 256) (hb : b < 256) (hc : c < 256) (hd : d < 256) where
  abbrev quad : List ℕ
  quad = a ∷ b ∷ c ∷ d ∷ []

  pair_sums_lem : pair_sums (load quad) ≡ load (map pairs quad)
  unfolding pair_sums pairs load mask_word
  pair_sums_lem = omega (
    arith,
    and_half quad (ha, (hb, (hc, (hd, tt)))),
    byte_bounds a ha,
    byte_bounds b hb,
    byte_bounds c hc,
    byte_bounds d hd,
  )

  nibble_sums_lem : nibble_sums (load (map pairs quad)) ≡ load (map nibbles (map pairs quad))
  unfolding nibble_sums nibbles load mask_word
  nibble_sums_lem = omega (
    arith,
    and_quarter (map pairs quad) bytes,
    and_mask 0x33 (map pairs quad) (omega arith) bytes,
    byte_bounds a ha,
    byte_bounds b hb,
    byte_bounds c hc,
    byte_bounds d hd,
  )
    where
      bytes : IsBytes (map pairs quad)
      bytes = (pairs-lt a ha, (pairs-lt b hb, (pairs-lt c hc, (pairs-lt d hd, tt))))

  word_sum_lem : word_sum (load (map nibbles (map pairs quad))) ≡ ones a + ones b + ones c + ones d
  unfolding word_sum load mask_word
  word_sum_lem =
      ap (λ n. bit_and n 0x0f0f_0f0f * 0x0101_0101 % 2 ^ 32 / 2 ^ 24) no_wrap
      ∙ ap (λ n. n * 0x0101_0101 % 2 ^ 32 / 2 ^ 24) (add_nibbles sums small)
      ∙ omega (arith, byte_bounds a ha, byte_bounds b hb, byte_bounds c hc, byte_bounds d hd)
    where
      sums : List ℕ
      sums = map nibbles (map pairs quad)

      small : All SmallNibbles sums
      small = (
        (byte_bounds a ha).1,
        ((byte_bounds b hb).1, ((byte_bounds c hc).1, ((byte_bounds d hd).1, tt))),
      )

      no_wrap : add32 (load sums) (load sums / 16) ≡ load sums + load sums / 16
      no_wrap = omega (arith, small)

  -- The word's bits are counted byte by byte.
  pub count_bits_word_lem :
      (ret : ℕ) → count_bits_word (load quad) ret ≡ add32 ret (ones a + ones b + ones c + ones d)
  unfolding count_bits_word
  count_bits_word_lem ret = ground (arith, pair_sums_lem, nibble_sums_lem, word_sum_lem, all_ones)
    where
      all_ones : load quad ≡ 0xffff_ffff → ones a + ones b + ones c + ones d ≡ 32
      all_ones = unfold load ones in λ e. omega arith
