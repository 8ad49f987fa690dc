-- ===== src/As/Tests.antt =====
-- A small assembly file.
use nfuzzer.Base.{ℕ, ◌+◌, arith, true, false, leb, ◌&&◌, List, [], ◌∷◌, ◌++◌}
use nfuzzer.As.{Options, codes, add_instrumentation}
use nfuzzer.As.Placed.{IsInstrumented, add_instrumentation-IsInstrumented}

abbrev plain_options : Options
plain_options = record {
  pass_thru = false;
  use_64bit = true;
  clang_mode = false;
  inst_ratio = 100;
  pow2 = 16;
  isalpha = λ b. leb 65 b && leb b 122;
  isdigit = λ b. leb 48 b && leb b 57;
}

abbrev three_lines : List (List ℕ)
three_lines =
    (9 ∷ codes ".text" ++ (10 ∷ []))
    ∷ (codes "main:" ++ (10 ∷ []))
    ∷ (9 ∷ codes "jne" ++ (9 ∷ codes ".L3" ++ (10 ∷ [])))
    ∷ []

abbrev counter : ℕ → ℕ × ℕ
counter g = (g, g + 1)

add_instrumentation-IsInstrumented_example :
    IsInstrumented plain_options three_lines
      (add_instrumentation counter plain_options three_lines 5)
add_instrumentation-IsInstrumented_example =
    add_instrumentation-IsInstrumented counter plain_options three_lines 5 (omega arith)
