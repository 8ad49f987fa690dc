-- ===== src/Bitmap/Tests.antt =====
-- The theorems on the maps at concrete inputs: a map of 8 bytes, MAP_SIZE_POW2 being 3.
use nfuzzer.Base.{
  ℕ, ◌==◌, ltb, ◌&&◌, not, if◌then◌else◌, false, List, [], ◌∷◌, ◌≡◌, ◌↔◌, arith, map, get_or,
}
use nfuzzer.Base.Bytes.{zip_with}
use nfuzzer.Config.{map_size}
use nfuzzer.Bitmap.Virgin.{virgin_bits, Maps, set_virgin, mark_changed, has_new_bits}
use nfuzzer.Bitmap.Virgin.Words.{clear, max_novelty}
use nfuzzer.Bitmap.Virgin.Novelty.{
  IsMap, NewTuple, has_new_bits_lem, has_new_bits_twice, has_new_bits-two_iff,
}
use nfuzzer.Bitmap.Counts.{count_bits, count_bytes, count_non_255_bytes}
use nfuzzer.Bitmap.Counts.Popcount.{ones}
use nfuzzer.Bitmap.Counts.Totals.{total, is_set, is_touched, count_bits_lem, count_bytes_lem}
use nfuzzer.Bitmap.Classes.{
  count_class_lookup8, init_count_class16, classify_counts, classify_bytes,
}
use nfuzzer.Bitmap.Classes.Bytewise.{classify_counts_lem}
use nfuzzer.Bitmap.Simplify.{simplify_trace}
use nfuzzer.Bitmap.Simplify.Bytewise.{simplify_trace_lem}
use nfuzzer.Bitmap.Minimize.{minimize_bits}
use nfuzzer.Bitmap.Minimize.Bits.{bit_at, minimize_bits_lem}

-- A trace with hits in four bytes, and a virgin map in which one of them was seen before.
abbrev trace : List ℕ
trace = 5 ∷ 0 ∷ 1 ∷ 0 ∷ 0 ∷ 200 ∷ 0 ∷ 3 ∷ []

abbrev virgin : List ℕ
virgin = 255 ∷ 255 ∷ 254 ∷ 255 ∷ 255 ∷ 55 ∷ 255 ∷ 253 ∷ []

abbrev maps : Maps
maps = record {
  trace_bits = trace;
  bits = virgin;
  tmout = virgin;
  crash = virgin;
  bitmap_changed = false;
}

trace-IsMap : IsMap 3 trace
trace-IsMap = omega arith

virgin-IsMap : IsMap 3 virgin
virgin-IsMap = omega arith

has_new_bits_lem_example : has_new_bits 3 virgin_bits maps ≡ (
  max_novelty trace virgin,
  mark_changed virgin_bits
      (max_novelty trace virgin)
      (set_virgin virgin_bits (zip_with clear trace virgin) maps),
)
has_new_bits_lem_example =
    has_new_bits_lem 3 virgin_bits maps (omega arith) trace-IsMap virgin-IsMap

has_new_bits_twice_example :
    let m' = (has_new_bits 3 virgin_bits maps).1 in has_new_bits 3 virgin_bits m' ≡ (0, m')
has_new_bits_twice_example =
    has_new_bits_twice 3 virgin_bits maps (omega arith) trace-IsMap virgin-IsMap

has_new_bits-two_iff_example : ((has_new_bits 3 virgin_bits maps).0 ≡ 2) ↔ NewTuple trace virgin
has_new_bits-two_iff_example =
    has_new_bits-two_iff 3 virgin_bits maps (omega arith) trace-IsMap virgin-IsMap

count_bits_lem_example : count_bits 3 virgin ≡ total ones virgin
count_bits_lem_example = count_bits_lem 3 virgin (omega arith) (omega arith) virgin-IsMap

count_bytes_lem_example :
    (count_bytes 3 virgin ≡ total is_set virgin)
    × (count_non_255_bytes 3 virgin ≡ total is_touched virgin)
count_bytes_lem_example = count_bytes_lem 3 virgin (omega arith) (omega arith) virgin-IsMap

classify_counts_lem_example :
    (classify_counts 3 init_count_class16 trace ≡ map count_class_lookup8 trace)
    × (classify_counts 3 init_count_class16 trace
        ≡ classify_bytes false count_class_lookup8 (map_size 3) trace)
classify_counts_lem_example = classify_counts_lem 3 trace (omega arith) trace-IsMap

simplify_trace_lem_example : simplify_trace 3 trace ≡ map (λ b. if b == 0 then 1 else 128) trace
simplify_trace_lem_example = simplify_trace_lem 3 trace (omega arith) trace-IsMap

minimize_bits_lem_example :
    bit_at (minimize_bits 3 (0 ∷ []) trace) 5
    ≡ (if ltb 5 (map_size 3) && not (get_or trace 5 0 == 0) then 1 else bit_at (0 ∷ []) 5)
minimize_bits_lem_example = minimize_bits_lem 3 (0 ∷ []) trace 5 (omega arith)
