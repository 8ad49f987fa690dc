-- ===== src/Bitmap/Virgin/Words.antt =====
-- One step of the loop of `has_new_bits`, byte by byte.
use nfuzzer.Base.{
  ℕ, ◌-◌, ◌^◌, ◌==◌, if◌then◌else◌, bit_and, List, [], ◌∷◌, ◌≡◌, refl, ap, arith, length,
  length-map, map, ◌∙◌, sym, max, ap₂, ◌≤◌, ℕ_discrete,
}
use nfuzzer.Base.Bits.{bit_and_ones, bit_and-zero_left, bit_and-le_left, complement_of_disjoint}
use nfuzzer.Base.Bytes.{
  load, store, IsBytes, All, zip_with, load-bit_and, load-complement, complement-IsBytes,
  store-load, load-zero, length-zip_with,
}
use nfuzzer.Bitmap.Virgin.{pristine_hit, visit_word}

-- `v & ~c` of two bytes.
unfoldable pub clear : ℕ → ℕ → ℕ
clear c v = bit_and v (255 - c)

-- What a byte of the trace tells about a byte of the virgin map: 2 for a tuple that was never seen,
-- 1 for a new hit count of a known one, 0 for nothing new.
unfoldable pub novelty : ℕ → ℕ → ℕ
novelty c v = if bit_and c v == 0 then 0 else if v == 255 then 2 else 1

unfoldable pub max_novelty : List ℕ → List ℕ → ℕ
max_novelty [] vir = 0
max_novelty (c ∷ cur) [] = 0
max_novelty (c ∷ cur) (v ∷ vir) = max (novelty c v) (max_novelty cur vir)

clear-map :
    (xs ys : List ℕ)
    → zip_with (λ v c. bit_and v c) ys (map (λ b. 255 - b) xs) ≡ zip_with clear xs ys
unfolding clear
clear-map [] [] = refl
clear-map [] (y ∷ ys) = refl
clear-map (x ∷ xs) [] = refl
clear-map (x ∷ xs) (y ∷ ys) = ap (λ t. bit_and y (255 - x) ∷ t) (clear-map xs ys)

module _ (xs ys : List ℕ) (hx : IsBytes xs) (hy : IsBytes ys) where
  -- `v & ~c` of two words of the same width.
  pub load-clear :
      length xs ≡ length ys
      → bit_and (load ys) (256 ^ length xs - 1 - load xs) ≡ load (zip_with clear xs ys)
  load-clear e = rw (load-complement xs hx) (
      load-bit_and ys (map (λ b. 255 - b) xs) (sym e ∙ sym (length-map xs _)) hy
        (complement-IsBytes xs)
      ∙ ap load (clear-map xs ys))

pub clear-IsBytes : (xs ys : List ℕ) → IsBytes ys → IsBytes (zip_with clear xs ys)
unfolding clear
clear-IsBytes [] ys h = tt
clear-IsBytes (x ∷ xs) [] h = tt
clear-IsBytes (x ∷ xs) (y ∷ ys) h =
    (omega (arith, bit_and-le_left y (255 - x)), clear-IsBytes xs ys h.1)

-- Where no byte of the trace meets a bit of the map, clearing changes nothing.
clear_nothing :
    (xs ys : List ℕ)
    → length xs ≡ length ys
    → IsBytes xs
    → IsBytes ys
    → All (λ b. b ≡ 0) (zip_with bit_and xs ys)
    → zip_with clear xs ys ≡ ys
unfolding clear
clear_nothing [] [] e h k z = refl
clear_nothing [] (y ∷ ys) e h k z = absurd (omega arith)
clear_nothing (x ∷ xs) [] e h k z = absurd (omega arith)
clear_nothing (x ∷ xs) (y ∷ ys) e h k z =
    ap₂ ◌∷◌ (complement_of_disjoint 8 x y h.0 k.0 z.0)
      (clear_nothing xs ys (omega arith) h.1 k.1 z.1)

-- The two tests of the code, on a group of any width.
max_novelty_by_tests :
    (xs ys : List ℕ)
    → IsBytes xs
    → IsBytes ys
    → max_novelty xs ys
      ≡ (if pristine_hit xs ys then 2 else if load (zip_with bit_and xs ys) == 0 then 0 else 1)
unfolding max_novelty novelty pristine_hit load
max_novelty_by_tests [] ys h k = refl
max_novelty_by_tests (x ∷ xs) [] h k = refl
max_novelty_by_tests (x ∷ xs) (y ∷ ys) h k =
    ground (arith, max_novelty_by_tests xs ys h.1 k.1, bit_and_ones 8 x h.0, bit_and-zero_left y)

pub max_novelty-le : (xs ys : List ℕ) → max_novelty xs ys ≤ 2
unfolding max_novelty novelty
max_novelty-le [] ys = omega arith
max_novelty-le (x ∷ xs) [] = omega arith
max_novelty-le (x ∷ xs) (y ∷ ys) = ground (arith, max_novelty-le xs ys)

max_novelty-zero :
    (xs ys : List ℕ) → All (λ b. b ≡ 0) (zip_with bit_and xs ys) → max_novelty xs ys ≡ 0
unfolding max_novelty novelty
max_novelty-zero [] ys h = refl
max_novelty-zero (x ∷ xs) [] h = refl
max_novelty-zero (x ∷ xs) (y ∷ ys) h = ground (arith, max_novelty-zero xs ys h.1)

-- `*virgin &= ~*current` stores the cleared bytes.
store-clear :
    (xs ys : List ℕ)
    → length xs ≡ 8
    → length ys ≡ 8
    → IsBytes xs
    → IsBytes ys
    → store 8 (bit_and (load ys) (2 ^ 64 - 1 - load xs)) ≡ zip_with clear xs ys
store-clear xs ys ex ey hx hy =
    ap (store 8) (widen ∙ load-clear xs ys hx hy (ex ∙ sym ey))
    ∙ ap (λ n. store n (load (zip_with clear xs ys))) (sym len)
    ∙ store-load (zip_with clear xs ys) (clear-IsBytes xs ys hy)
  where
    widen :
        bit_and (load ys) (2 ^ 64 - 1 - load xs) ≡ bit_and (load ys) (256 ^ length xs - 1 - load xs)
    widen = rw ex

    len : length (zip_with clear xs ys) ≡ 8
    len = omega (arith, length-zip_with clear xs ys)

-- A step leaves the largest novelty seen so far, and the word with the trace's bits cleared.
pub visit_word_lem :
    (xs ys : List ℕ) (ret : ℕ)
    → length xs ≡ 8
    → length ys ≡ 8
    → IsBytes xs
    → IsBytes ys
    → ret ≤ 2
    → visit_word xs ys ret ≡ (max ret (max_novelty xs ys), zip_with clear xs ys)
unfolding visit_word
visit_word_lem xs ys ret ex ey hx hy hr = elim (ℕ_discrete (bit_and (load xs) (load ys)) 0) [
  | yes e ↦
      let none_met : All (λ b. b ≡ 0) (zip_with bit_and xs ys) =
        load-zero _ (sym (load-bit_and xs ys (ex ∙ sym ey) hx hy) ∙ e) in
      ground
        (arith, max_novelty-zero xs ys none_met, clear_nothing xs ys (ex ∙ sym ey) hx hy none_met)
  | no ne ↦ ground (
    arith,
    bit_and-zero_left (load ys),
    max_novelty_by_tests xs ys hx hy,
    load-bit_and xs ys (ex ∙ sym ey) hx hy,
    store-clear xs ys ex ey hx hy,
  )
]
