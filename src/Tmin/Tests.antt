-- ===== src/Tmin/Tests.antt =====
-- A target that crashes on a long input.
use nfuzzer.Base.{ℕ, ◌+◌, ltb, false, none, List, [], ◌∷◌, length}
use nfuzzer.Tmin.Verdict.{Observed, Options}
use nfuzzer.Tmin.Main.{IsMinimized, main, main-IsMinimized}

abbrev crash_if_long : ℕ → List ℕ → ℕ × Observed
crash_if_long g input = (
  g + 1,
  record {
    stop_soon = false;
    child_timed_out = false;
    crashed = ltb 2 (length input);
    trace_bits = 1 ∷ [];
  },
)

abbrev plain_options : Options
plain_options = record {
  pow2 = 3;
  edges_only = false;
  exact_mode = false;
  mask_bitmap = none;
  count_class_lookup = λ b. b;
}

abbrev six_bytes : List ℕ
six_bytes = 9 ∷ 8 ∷ 7 ∷ 6 ∷ 5 ∷ 4 ∷ []

main-IsMinimized_example :
    IsMinimized crash_if_long plain_options six_bytes 0
      (main crash_if_long plain_options six_bytes 0)
main-IsMinimized_example = main-IsMinimized crash_if_long plain_options six_bytes 0
