-- ===== src/Bitmap/Virgin/Novelty.antt =====
-- What `has_new_bits` returns, and what it leaves in the maps.
use nfuzzer.Base.{
  ℕ, zero, suc, ◌*◌, ◌/◌, ◌-◌, ◌≤◌, ◌<◌, List, [], ◌∷◌, take, drop, length, length-take,
  length-drop, max, ◌≡◌, refl, ap, ◌∙◌, arith, ap₂, get_or, ◌≢◌, ◌↔◌, ℕ_discrete,
}
use nfuzzer.Base.Bits.{bit_and-complement, bit_and_idem, bit_and_ones, bit_and-zero_left}
use nfuzzer.Base.Bytes.{IsBytes, zip_with, zip_with-take-drop, All-take, All-drop, length-zip_with}
use nfuzzer.Config.{map_size, map_size-words}
use nfuzzer.Bitmap.Virgin.{
  VirginMap, virgin_bits, virgin_tmout, virgin_crash, Maps, virgin_map, set_virgin, mark_changed,
  new_bits_loop, has_new_bits,
}
use nfuzzer.Bitmap.Virgin.Words.{
  clear, novelty, max_novelty, visit_word_lem, max_novelty-le, clear-IsBytes,
}

max_novelty-take-drop :
    (n : ℕ) (xs ys : List ℕ)
    → max (max_novelty (take n xs) (take n ys)) (max_novelty (drop n xs) (drop n ys))
      ≡ max_novelty xs ys
unfolding max_novelty
max_novelty-take-drop zero xs ys = omega arith
max_novelty-take-drop (suc n) [] ys = refl
max_novelty-take-drop (suc n) (x ∷ xs) [] = omega (arith, max_novelty-nil (drop n xs))
  where
    max_novelty-nil : (zs : List ℕ) → max_novelty zs [] ≡ 0
    max_novelty-nil [] = refl
    max_novelty-nil (z ∷ zs) = refl
max_novelty-take-drop (suc n) (x ∷ xs) (y ∷ ys) = omega (arith, max_novelty-take-drop n xs ys)

-- The loop over i words returns the largest novelty of their bytes, and clears every byte.
pub new_bits_loop_lem :
    (i : ℕ) (cur vir : List ℕ) (ret : ℕ)
    → length cur ≡ 8 * i
    → length vir ≡ 8 * i
    → IsBytes cur
    → IsBytes vir
    → ret ≤ 2
    → new_bits_loop i cur vir ret ≡ (max ret (max_novelty cur vir), zip_with clear cur vir)
unfolding new_bits_loop max_novelty
new_bits_loop_lem zero [] [] ret ec ev hc hv hr = ground arith
new_bits_loop_lem zero [] (v ∷ vir) ret ec ev hc hv hr = absurd (omega arith)
new_bits_loop_lem zero (c ∷ cur) vir ret ec ev hc hv hr = absurd (omega arith)
new_bits_loop_lem (suc i) cur vir ret ec ev hc hv hr = ground (
  arith,
  visit_word_lem (take 8 cur) (take 8 vir) ret (omega (arith, length-take 8 cur))
      (omega (arith, length-take 8 vir)) (All-take _ 8 cur hc) (All-take _ 8 vir hv) hr,
  new_bits_loop_lem i (drop 8 cur) (drop 8 vir) (max ret (max_novelty (take 8 cur) (take 8 vir)))
      (omega (arith, length-drop 8 cur)) (omega (arith, length-drop 8 vir)) (All-drop _ 8 cur hc)
      (All-drop _ 8 vir hv) (omega (arith, max_novelty-le (take 8 cur) (take 8 vir))),
  max_novelty-take-drop 8 cur vir,
  zip_with-take-drop clear 8 cur vir,
)

-- The arrays that the routine is called on: MAP_SIZE bytes each.
pub record IsMap (pow2 : ℕ) (m : List ℕ) : Type 0 where
  pub bytes : IsBytes m
  pub size : length m ≡ map_size pow2

module _ (pow2 : ℕ) (which : VirginMap) (m : Maps) (fits : 2 < pow2)
    (trace : IsMap pow2 m.trace_bits) (virgin : IsMap pow2 (virgin_map which m)) where
  loop_result : new_bits_loop (map_size pow2 / 8) m.trace_bits (virgin_map which m) 0 ≡ (
    max_novelty m.trace_bits (virgin_map which m),
    zip_with clear m.trace_bits (virgin_map which m),
  )
  loop_result =
      new_bits_loop_lem (map_size pow2 / 8) m.trace_bits (virgin_map which m) 0
        (trace.size ∙ map_size-words pow2 fits) (virgin.size ∙ map_size-words pow2 fits) trace.bytes
        virgin.bytes (omega arith)
      ∙ ap (λ n. (n, zip_with clear m.trace_bits (virgin_map which m))) (omega arith)

  -- On maps of MAP_SIZE bytes the word-wise routine returns the largest novelty of a byte (2 for a
  -- tuple never seen, 1 for a new hit count, 0 for nothing), clears in the virgin map byte by byte
  -- the bits of the trace, sets `bitmap_changed` if anything is new in `virgin_bits`, and changes
  -- nothing else.
  pub has_new_bits_lem : has_new_bits pow2 which m ≡ (
    max_novelty m.trace_bits (virgin_map which m),
    mark_changed which
        (max_novelty m.trace_bits (virgin_map which m))
        (set_virgin which (zip_with clear m.trace_bits (virgin_map which m)) m),
  )
  unfolding has_new_bits
  has_new_bits_lem = rw loop_result

max_novelty-clear : (xs ys : List ℕ) → IsBytes xs → max_novelty xs (zip_with clear xs ys) ≡ 0
unfolding max_novelty novelty clear
max_novelty-clear [] ys h = refl
max_novelty-clear (x ∷ xs) [] h = refl
max_novelty-clear (x ∷ xs) (y ∷ ys) h =
    ground (arith, bit_and-complement 8 x y h.0, max_novelty-clear xs ys h.1)

clear_twice : (xs ys : List ℕ) → zip_with clear xs (zip_with clear xs ys) ≡ zip_with clear xs ys
unfolding clear
clear_twice [] ys = refl
clear_twice (x ∷ xs) [] = refl
clear_twice (x ∷ xs) (y ∷ ys) =
    ap₂ ◌∷◌ (bit_and_idem y y (255 - x) (omega arith)) (clear_twice xs ys)

after : VirginMap → ℕ → List ℕ → Maps → Maps
after which ret v m = mark_changed which ret (set_virgin which v m)

virgin_map-after :
    (which : VirginMap) (ret : ℕ) (v : List ℕ) (m : Maps)
    → (virgin_map which (after which ret v m) ≡ v)
      × ((after which ret v m).trace_bits ≡ m.trace_bits)
unfolding after mark_changed
virgin_map-after virgin_bits ret v m = ground arith
virgin_map-after virgin_tmout ret v m = (refl, refl)
virgin_map-after virgin_crash ret v m = (refl, refl)

after_nothing : (which : VirginMap) (m : Maps) → after which 0 (virgin_map which m) m ≡ m
unfolding after mark_changed
after_nothing virgin_bits m = refl
after_nothing virgin_tmout m = refl
after_nothing virgin_crash m = refl

-- Where the trace is already cleared from the map, nothing is new and nothing changes.
has_new_bits_quiet :
    (pow2 : ℕ) (which : VirginMap) (m : Maps)
    → 2 < pow2
    → IsMap pow2 m.trace_bits
    → IsMap pow2 (virgin_map which m)
    → max_novelty m.trace_bits (virgin_map which m) ≡ 0
    → zip_with clear m.trace_bits (virgin_map which m) ≡ virgin_map which m
    → has_new_bits pow2 which m ≡ (0, m)
unfolding after
has_new_bits_quiet pow2 which m fits trace virgin none same =
    has_new_bits_lem pow2 which m fits trace virgin
    ∙ rw (none, same) (ap (λ (s : Maps). (0, s)) (after_nothing which m))

-- A second call on the same trace returns 0 and changes nothing.
pub has_new_bits_twice :
    (pow2 : ℕ) (which : VirginMap) (m : Maps)
    → 2 < pow2
    → IsMap pow2 m.trace_bits
    → IsMap pow2 (virgin_map which m)
    → let m' = (has_new_bits pow2 which m).1 in has_new_bits pow2 which m' ≡ (0, m')
unfolding after
has_new_bits_twice pow2 which m fits trace virgin =
    rw (has_new_bits_lem pow2 which m fits trace virgin) (
      has_new_bits_quiet pow2 which m' fits (rw kept.1 trace) (rw kept.0 cleared-IsMap)
        (rw (kept.0, kept.1) (max_novelty-clear m.trace_bits (virgin_map which m) trace.bytes))
        (rw (kept.0, kept.1) (clear_twice m.trace_bits (virgin_map which m))))
  where
    cleared : List ℕ
    cleared = zip_with clear m.trace_bits (virgin_map which m)

    m' : Maps
    m' = after which (max_novelty m.trace_bits (virgin_map which m)) cleared m

    kept : (virgin_map which m' ≡ cleared) × (m'.trace_bits ≡ m.trace_bits)
    kept = virgin_map-after which (max_novelty m.trace_bits (virgin_map which m)) cleared m

    cleared-IsMap : IsMap pow2 cleared
    cleared-IsMap = record {
      bytes = clear-IsBytes m.trace_bits (virgin_map which m) virgin.bytes;
      size =
          omega (
            arith,
            length-zip_with clear m.trace_bits (virgin_map which m),
            trace.size,
            virgin.size,
          );
    }

-- A byte of the trace that is set where the map is untouched.
abbrev pub NewTuple : List ℕ → List ℕ → Type 0
NewTuple cur vir = (i : ℕ) × (i < length vir) × (get_or cur i 0 ≢ 0) × (get_or vir i 0 ≡ 255)

max_novelty-two : (xs ys : List ℕ) → IsBytes xs → max_novelty xs ys ≡ 2 → NewTuple xs ys
unfolding max_novelty novelty
max_novelty-two [] ys hx h = cc
max_novelty-two (x ∷ xs) [] hx h = cc
max_novelty-two (x ∷ xs) (y ∷ ys) hx h = elim (ℕ_discrete (max_novelty xs ys) 2) [
  | yes e ↦ let (i, p, q, r) = max_novelty-two xs ys hx.1 e in (suc i, omega arith, q, r)
  | no ne ↦
      (0, omega arith, ground (arith, bit_and-zero_left y), ground (arith, max_novelty-le xs ys))
]

two-max_novelty :
    (xs ys : List ℕ) (i : ℕ)
    → IsBytes xs
    → i < length ys
    → get_or xs i 0 ≢ 0
    → get_or ys i 0 ≡ 255
    → max_novelty xs ys ≡ 2
unfolding max_novelty novelty
two-max_novelty [] ys i hx lt ne e = ground arith
two-max_novelty (x ∷ xs) [] i hx lt ne e = absurd (omega arith)
two-max_novelty (x ∷ xs) (y ∷ ys) zero hx lt ne e =
    ground (arith, bit_and_ones 8 x hx.0, max_novelty-le xs ys)
two-max_novelty (x ∷ xs) (y ∷ ys) (suc i) hx lt ne e =
    ground (arith, two-max_novelty xs ys i hx.1 (omega arith) ne e)

-- On maps of MAP_SIZE bytes the result is 2 exactly when a byte of the trace is set where the map is
-- untouched (all ones).
pub has_new_bits-two_iff :
    (pow2 : ℕ) (which : VirginMap) (m : Maps)
    → 2 < pow2
    → IsMap pow2 m.trace_bits
    → IsMap pow2 (virgin_map which m)
    → ((has_new_bits pow2 which m).0 ≡ 2) ↔ NewTuple m.trace_bits (virgin_map which m)
has_new_bits-two_iff pow2 which m fits trace virgin =
    rw (has_new_bits_lem pow2 which m fits trace virgin) (
      max_novelty-two m.trace_bits (virgin_map which m) trace.bytes,
      λ found.
          two-max_novelty m.trace_bits (virgin_map which m) found.0 trace.bytes found.1 found.2
            found.3,
    )
