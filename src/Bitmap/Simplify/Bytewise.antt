-- ===== src/Bitmap/Simplify/Bytewise.antt =====
-- What the routines do to each byte.
use nfuzzer.Base.{
  ℕ, zero, suc, ◌*◌, ◌-◌, ◌^◌, ◌/◌, ◌<◌, ◌==◌, if◌then◌else◌, bit_and, ◌≡◌, refl, ap, ap₂, ◌∙◌, sym,
  arith, List, [], ◌∷◌, map, length, take, drop, false, some, length-take, length-drop, ◌↔◌,
}
use nfuzzer.Base.Bytes.{
  load, store, IsBytes, All, load-zero, zero-load, zip_with, zip_with-take-drop, All-take, All-drop,
  length-zip_with, store-load,
}
use nfuzzer.Config.{map_size, map_size-words}
use nfuzzer.Bitmap.Groups.{each_group-eq-map}
use nfuzzer.Bitmap.Virgin.Novelty.{IsMap}
use nfuzzer.Bitmap.Virgin.Words.{clear, load-clear, clear-IsBytes}
use nfuzzer.Bitmap.Simplify.{
  simplify_lookup, simplify_word, simplify_trace, mask_words, apply_mask, any_word, anything_set,
}

zero_word : (w : List ℕ) → All (λ b. b ≡ 0) w → map simplify_lookup w ≡ map (λ b. 1) w
unfolding simplify_lookup
zero_word [] h = refl
zero_word (b ∷ w) h = ap₂ ◌∷◌ (ground arith) (zero_word w h.1)

simplify_word_lem :
    (w : List ℕ) → length w ≡ 8 → IsBytes w → simplify_word w ≡ map simplify_lookup w
unfolding simplify_word
simplify_word_lem w e h =
    ground (arith, λ (z : load w ≡ 0). sym (zero_word w (load-zero w z) ∙ constant 8 w e), stored)
  where
    ones : ℕ → List ℕ
    ones zero = []
    ones (suc n) = 1 ∷ ones n

    constant : (n : ℕ) (xs : List ℕ) → length xs ≡ n → map (λ (b : ℕ). 1) xs ≡ ones n
    constant zero [] p = refl
    constant zero (x ∷ xs) p = absurd (omega arith)
    constant (suc n) [] p = absurd (omega arith)
    constant (suc n) (x ∷ xs) p = ap (λ t. 1 ∷ t) (constant n xs (omega arith))

    stored : store 8 0x0101_0101_0101_0101 ≡ ones 8
    stored = unfold store in refl

-- On a map of MAP_SIZE bytes every byte becomes 1 if it was 0, and 128 otherwise.
pub simplify_trace_lem :
    (pow2 : ℕ) (mem : List ℕ)
    → 2 < pow2
    → IsMap pow2 mem
    → simplify_trace pow2 mem ≡ map (λ b. if b == 0 then 1 else 128) mem
unfolding simplify_trace simplify_lookup
simplify_trace_lem pow2 mem wide m =
    each_group-eq-map simplify_word simplify_lookup simplify_word_lem (map_size pow2 / 8) mem
      (m.size ∙ map_size-words pow2 wide) m.bytes

-- `*mem &= ~*mask` clears byte by byte.
mask_word_lem :
    (xs ys : List ℕ)
    → length xs ≡ 4
    → length ys ≡ 4
    → IsBytes xs
    → IsBytes ys
    → store 4 (bit_and (load ys) (2 ^ 32 - 1 - load xs)) ≡ zip_with clear xs ys
mask_word_lem xs ys ex ey hx hy =
    ap (store 4) (widen ∙ load-clear xs ys hx hy (ex ∙ sym ey))
    ∙ ap (λ n. store n (load (zip_with clear xs ys))) (sym len)
    ∙ store-load (zip_with clear xs ys) (clear-IsBytes xs ys hy)
  where
    widen :
        bit_and (load ys) (2 ^ 32 - 1 - load xs) ≡ bit_and (load ys) (256 ^ length xs - 1 - load xs)
    widen = rw ex

    len : length (zip_with clear xs ys) ≡ 4
    len = omega (arith, length-zip_with clear xs ys)

mask_words_lem :
    (i : ℕ) (mem mask : List ℕ)
    → length mem ≡ 4 * i
    → length mask ≡ 4 * i
    → IsBytes mem
    → IsBytes mask
    → mask_words i mem mask ≡ zip_with clear mask mem
unfolding mask_words
mask_words_lem zero [] [] e f h k = refl
mask_words_lem zero [] (x ∷ mask) e f h k = absurd (omega arith)
mask_words_lem zero (x ∷ mem) mask e f h k = absurd (omega arith)
mask_words_lem (suc i) mem mask e f h k =
    rw
      (
        mask_word_lem (take 4 mask) (take 4 mem) (omega (arith, length-take 4 mask))
            (omega (arith, length-take 4 mem)) (All-take _ 4 mask k) (All-take _ 4 mem h),
        mask_words_lem i (drop 4 mem) (drop 4 mask) (omega (arith, length-drop 4 mem))
            (omega (arith, length-drop 4 mask)) (All-drop _ 4 mem h) (All-drop _ 4 mask k),
      )
      (zip_with-take-drop clear 4 mask mem)

-- On maps of MAP_SIZE bytes a given mask clears, byte by byte, the bits that it has set.
pub apply_mask_lem :
    (pow2 : ℕ) (mem mask : List ℕ)
    → 2 < pow2
    → IsMap pow2 mem
    → IsMap pow2 mask
    → apply_mask pow2 mem (some mask) ≡ zip_with clear mask mem
unfolding apply_mask
apply_mask_lem pow2 mem mask wide m k =
    mask_words_lem (map_size pow2 / 4) mem mask (omega (arith, m.size, map_size-words pow2 wide))
      (omega (arith, k.size, map_size-words pow2 wide)) m.bytes k.bytes

-- With no word set no byte is set, and back; a list of bytes is 0 as a number when all are.
any_word_lem :
    (i : ℕ) (ptr : List ℕ) → length ptr ≡ 4 * i → (any_word i ptr ≡ false) ↔ (load ptr ≡ 0)
unfolding any_word load
any_word_lem zero [] e = (λ _. refl, λ _. refl)
any_word_lem zero (x ∷ ptr) e = absurd (omega arith)
any_word_lem (suc i) (a ∷ b ∷ c ∷ d ∷ ptr) e =
    let ih : (any_word i ptr ≡ false) ↔ (load ptr ≡ 0) = any_word_lem i ptr (omega arith) in
    (ground (arith, ih.0), ground (arith, ih.1))
any_word_lem (suc i) [] e = absurd (omega arith)
any_word_lem (suc i) (a ∷ []) e = absurd (omega arith)
any_word_lem (suc i) (a ∷ b ∷ []) e = absurd (omega arith)
any_word_lem (suc i) (a ∷ b ∷ c ∷ []) e = absurd (omega arith)

-- On a map of MAP_SIZE bytes nothing is found set exactly when every byte is 0.
pub anything_set_lem :
    (pow2 : ℕ) (trace : List ℕ)
    → 2 < pow2
    → IsMap pow2 trace
    → (anything_set pow2 trace ≡ false) ↔ All (λ b. b ≡ 0) trace
unfolding anything_set
anything_set_lem pow2 trace wide m =
    (λ e. load-zero trace (words.0 e), λ h. words.1 (zero-load trace h))
  where
    words : (any_word (map_size pow2 / 4) trace ≡ false) ↔ (load trace ≡ 0)
    words = any_word_lem (map_size pow2 / 4) trace (omega (arith, m.size, map_size-words pow2 wide))
