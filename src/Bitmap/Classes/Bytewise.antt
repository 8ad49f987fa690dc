-- ===== src/Bitmap/Classes/Bytewise.antt =====
-- The word-wise `classify_counts` against the byte-wise one.
use nfuzzer.Base.{
  ℕ, zero, suc, ◌*◌, ◌/◌, ◌<◌, ◌≡◌, refl, ap, ap₂, ◌∙◌, arith, List, [], ◌∷◌, map, length, false,
}
use nfuzzer.Base.Bytes.{load, IsBytes, All, load-zero}
use nfuzzer.Config.{map_size, map_size-words}
use nfuzzer.Bitmap.Groups.{each_group, each_group-eq-map}
use nfuzzer.Bitmap.Virgin.Novelty.{IsMap}
use nfuzzer.Bitmap.Classes.{
  count_class_lookup8, init_count_class16, classify_halves, classify_word, classify_counts,
  classify_bytes,
}
use nfuzzer.Bitmap.Classes.Table.{store-classes}

classify_halves_lem :
    (n : ℕ) (w : List ℕ)
    → length w ≡ 2 * n
    → IsBytes w
    → classify_halves init_count_class16 n w ≡ map count_class_lookup8 w
unfolding classify_halves
classify_halves_lem zero [] e h = refl
classify_halves_lem zero (x ∷ w) e h = absurd (omega arith)
classify_halves_lem (suc n) [] e h = absurd (omega arith)
classify_halves_lem (suc n) (x ∷ []) e h = absurd (omega arith)
classify_halves_lem (suc n) (a ∷ b ∷ w) e h =
    rw (store-classes a b h.0 h.1.0, classify_halves_lem n w (omega arith) h.1.1)

-- A word that is 0 has class 0 in every byte.
zero_classes : (w : List ℕ) → All (λ b. b ≡ 0) w → map count_class_lookup8 w ≡ w
unfolding count_class_lookup8
zero_classes [] h = refl
zero_classes (b ∷ w) h = ap₂ ◌∷◌ (ground arith) (zero_classes w h.1)

classify_word_lem :
    (w : List ℕ)
    → length w ≡ 8
    → IsBytes w
    → classify_word init_count_class16 w ≡ map count_class_lookup8 w
unfolding classify_word
classify_word_lem w e h =
    ground (arith, classify_halves_lem 4 w e h, λ (z : load w ≡ 0). zero_classes w (load-zero w z))

-- On a map of MAP_SIZE bytes the word-wise routine, with the table that `init_count_class16`
-- builds, gives every byte its class, as the byte-wise routine of the other tools does.
pub classify_counts_lem :
    (pow2 : ℕ) (mem : List ℕ)
    → 2 < pow2
    → IsMap pow2 mem
    → (classify_counts pow2 init_count_class16 mem ≡ map count_class_lookup8 mem)
      × (classify_counts pow2 init_count_class16 mem
          ≡ classify_bytes false count_class_lookup8 (map_size pow2) mem)
unfolding classify_counts classify_bytes
classify_counts_lem pow2 mem wide m = (bytewise, bytewise ∙ every (map_size pow2) mem m.size)
  where
    bytewise :
        each_group (classify_word init_count_class16) (map_size pow2 / 8) mem
        ≡ map count_class_lookup8 mem
    bytewise =
        each_group-eq-map (classify_word init_count_class16) count_class_lookup8 classify_word_lem
          (map_size pow2 / 8) mem (m.size ∙ map_size-words pow2 wide) m.bytes

    every :
        (n : ℕ) (xs : List ℕ)
        → length xs ≡ n
        → map count_class_lookup8 xs ≡ classify_bytes false count_class_lookup8 n xs
    every zero [] e = refl
    every zero (x ∷ xs) e = absurd (omega arith)
    every (suc n) [] e = absurd (omega arith)
    every (suc n) (x ∷ xs) e = ap (λ t. count_class_lookup8 x ∷ t) (every n xs (omega arith))
