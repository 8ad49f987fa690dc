-- ===== src/Bitmap/Counts/Totals.antt =====
-- What the three counting routines return: totals over the bytes of the map.
use native.Mathlib.Nat.{pow-le-pow_right, pow-suc}
use nfuzzer.Base.{
  ℕ, zero, suc, ◌+◌, ◌*◌, ◌/◌, ◌^◌, ◌==◌, ◌≤◌, ◌<◌, bit_and, List, [], ◌∷◌, length, ◌≡◌, ap, ◌∙◌,
  arith, if◌then◌else◌, get_or,
}
use nfuzzer.Base.Bits.{bit_and_fields, bit_and_ones, bit_and-zero_left, bit_and_comm}
use nfuzzer.Base.Bytes.{load, IsBytes}
use nfuzzer.Config.{map_size, map_size-words}
use nfuzzer.Bitmap.Virgin.Novelty.{IsMap}
use nfuzzer.Bitmap.Counts.{
  each_word, add32, count_bits_word, count_bits, ff, count_set, count_bytes_word, count_bytes,
  count_unset, count_non_255_word, count_non_255_bytes,
}
use nfuzzer.Bitmap.Counts.Popcount.{ones, count_bits_word_lem}

-- 1 for a byte that is not 0.
unfoldable pub is_set : ℕ → ℕ
is_set b = if b == 0 then 0 else 1

-- 1 for a byte that is not all ones.
unfoldable pub is_touched : ℕ → ℕ
is_touched b = if b == 255 then 0 else 1

-- The sum of `f` over the bytes.
abbrev pub total : (ℕ → ℕ) → List ℕ → ℕ
total f [] = 0
total f (x ∷ xs) = f x + total f xs

abbrev pub quad : ℕ → ℕ → ℕ → ℕ → List ℕ
quad a b c d = a ∷ b ∷ c ∷ d ∷ []

-- A loop whose body adds `f` of each byte of its word adds the total, in 32 bits.
each_word-total :
    (body : ℕ → ℕ → ℕ) (f : ℕ → ℕ)
    → ((a b c d ret : ℕ)
        → a < 256
        → b < 256
        → c < 256
        → d < 256
        → ret < 2 ^ 32
        → body (load (quad a b c d)) ret ≡ add32 ret (f a + f b + f c + f d))
    → (i : ℕ) (xs : List ℕ) (ret : ℕ) → length xs ≡ 4 * i
    → IsBytes xs
    → ret < 2 ^ 32
    → each_word body i xs ret ≡ add32 ret (total f xs)
unfolding each_word
each_word-total body f step zero [] ret e h r = omega arith
each_word-total body f step zero (x ∷ xs) ret e h r = absurd (omega arith)
each_word-total body f step (suc i) (a ∷ b ∷ c ∷ d ∷ xs) ret e h r =
    each_word-total body f step i xs (body (load (quad a b c d)) ret) (omega arith) h.1.1.1.1
      (omega (arith, step a b c d ret h.0 h.1.0 h.1.1.0 h.1.1.1.0 r))
    ∙ omega (arith, step a b c d ret h.0 h.1.0 h.1.1.0 h.1.1.1.0 r)
each_word-total body f step (suc i) [] ret e h r = absurd (omega arith)
each_word-total body f step (suc i) (a ∷ []) ret e h r = absurd (omega arith)
each_word-total body f step (suc i) (a ∷ b ∷ []) ret e h r = absurd (omega arith)
each_word-total body f step (suc i) (a ∷ b ∷ c ∷ []) ret e h r = absurd (omega arith)

-- The mask of byte b keeps that byte alone.
and_ff : (b : ℕ) (xs : List ℕ) → IsBytes xs → bit_and (load xs) (ff b) ≡ get_or xs b 0 * 256 ^ b
unfolding load
and_ff b [] h = omega (arith, bit_and-zero_left (ff b))
and_ff zero (x ∷ xs) h =
    ap (bit_and (load (x ∷ xs))) mask
    ∙ bit_and_fields 8 x 255 (load xs) 0 h.0 (omega arith)
    ∙ omega (arith, bit_and_ones 8 x h.0, bit_and_comm (load xs) 0, bit_and-zero_left (load xs))
  where
    mask : ff 0 ≡ 255 + 2 ^ 8 * 0
    mask = omega arith
and_ff (suc b) (x ∷ xs) h =
    ap (bit_and (load (x ∷ xs))) mask
    ∙ bit_and_fields 8 x 0 (load xs) (ff b) h.0 (omega arith)
    ∙ omega (
      arith,
      and_ff b xs h.1,
      bit_and_comm x 0,
      bit_and-zero_left x,
      ap (λ (t : ℕ). get_or xs b 0 * t) (pow-suc 256 b),
    )
  where
    mask : ff (suc b) ≡ 0 + 2 ^ 8 * ff b
    mask = omega (arith, pow-suc 256 b)

module _ (a b c d ret : ℕ) (ha : a < 256) (hb : b < 256) (hc : c < 256) (hd : d < 256) where
  bytes : IsBytes (quad a b c d)
  bytes = (ha, (hb, (hc, (hd, tt))))

  count_bytes_word_lem :
      ret < 2 ^ 32
      → count_bytes_word (load (quad a b c d)) ret
        ≡ add32 ret (is_set a + is_set b + is_set c + is_set d)
  unfolding count_bytes_word count_set is_set
  count_bytes_word_lem r = ground (
    arith,
    and_ff 0 (quad a b c d) bytes,
    and_ff 1 (quad a b c d) bytes,
    and_ff 2 (quad a b c d) bytes,
    and_ff 3 (quad a b c d) bytes,
    bit_and-zero_left (ff 0),
    no_byte,
  )
    where
      no_byte : load (quad a b c d) ≡ 0 → (a ≡ 0) × (b ≡ 0) × (c ≡ 0) × (d ≡ 0)
      no_byte = unfold load in λ e. omega arith

  count_non_255_word_lem :
      ret < 2 ^ 32
      → count_non_255_word (load (quad a b c d)) ret
        ≡ add32 ret (is_touched a + is_touched b + is_touched c + is_touched d)
  unfolding count_non_255_word count_unset is_touched
  count_non_255_word_lem r = ground (
    arith,
    and_ff 0 (quad a b c d) bytes,
    and_ff 1 (quad a b c d) bytes,
    and_ff 2 (quad a b c d) bytes,
    and_ff 3 (quad a b c d) bytes,
    all_ones,
  )
    where
      all_ones : load (quad a b c d) ≡ 0xffff_ffff → (a ≡ 255) × (b ≡ 255) × (c ≡ 255) × (d ≡ 255)
      all_ones = unfold load in λ e. omega arith

total-le : (f : ℕ → ℕ) (n : ℕ) (xs : List ℕ) → ((b : ℕ) → f b ≤ n) → total f xs ≤ n * length xs
total-le f n [] h = omega arith
total-le f n (x ∷ xs) h = omega (arith, h x, total-le f n xs h)

-- Any total below 8 for each byte fits the counter.
total-fits :
    (f : ℕ → ℕ) (pow2 : ℕ) (m : List ℕ)
    → pow2 < 29
    → IsMap pow2 m
    → ((b : ℕ) → f b ≤ 8)
    → add32 0 (total f m) ≡ total f m
total-fits f pow2 m small map h = omega (
  arith,
  total-le f 8 m h,
  map.size,
  pow-le-pow_right {n = 2} (omega arith) {i = pow2} {j = 28} (omega arith),
)

module _ (pow2 : ℕ) (m : List ℕ) (wide : 2 < pow2) (small : pow2 < 29) (map : IsMap pow2 m) where
  quads : length m ≡ 4 * (map_size pow2 / 4)
  quads = omega (arith, map.size, map_size-words pow2 wide)

  -- On a map of MAP_SIZE bytes, MAP_SIZE_POW2 being from 3 to 28, the branch-free count is the
  -- number of ones in all bytes.
  pub count_bits_lem : count_bits pow2 m ≡ total ones m
  unfolding count_bits
  count_bits_lem =
      each_word-total count_bits_word ones
        (λ a b c d ret ha hb hc hd r. count_bits_word_lem a b c d ha hb hc hd ret)
        (map_size pow2 / 4) m 0 quads map.bytes (omega arith)
      ∙ total-fits ones pow2 m small map (λ b. unfold ones in omega arith)

  -- On such a map `count_bytes` returns the number of bytes that are not 0, and
  -- `count_non_255_bytes` the number of bytes that are not 255.
  pub count_bytes_lem :
      (count_bytes pow2 m ≡ total is_set m) × (count_non_255_bytes pow2 m ≡ total is_touched m)
  unfolding count_bytes count_non_255_bytes
  count_bytes_lem = (
    each_word-total count_bytes_word is_set
          (λ a b c d ret ha hb hc hd r. count_bytes_word_lem a b c d ret ha hb hc hd r)
          (map_size pow2 / 4) m 0 quads map.bytes (omega arith)
        ∙ total-fits is_set pow2 m small map (λ b. unfold is_set in ground arith),
    each_word-total count_non_255_word is_touched
          (λ a b c d ret ha hb hc hd r. count_non_255_word_lem a b c d ret ha hb hc hd r)
          (map_size pow2 / 4) m 0 quads map.bytes (omega arith)
        ∙ total-fits is_touched pow2 m small map (λ b. unfold is_touched in ground arith),
  )
