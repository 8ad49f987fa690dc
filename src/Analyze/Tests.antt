-- ===== src/Analyze/Tests.antt =====
-- A target that looks at the first byte only.
use nfuzzer.Base.{ℕ, ◌+◌, arith, false, List, [], ◌∷◌, get_or}
use nfuzzer.Tmin.Verdict.{Observed}
use nfuzzer.Analyze.{Analysis, analyze}
use nfuzzer.Analyze.Explained.{Allows, IsAnalyzed, analyze_lem}

abbrev first_byte : ℕ → List ℕ → ℕ × Observed
first_byte g input = (
  g + 1,
  record {
    stop_soon = false;
    child_timed_out = false;
    crashed = false;
    trace_bits = get_or input 0 0 ∷ 0 ∷ 0 ∷ 0 ∷ 0 ∷ 0 ∷ 0 ∷ 0 ∷ [];
  },
)

abbrev plain_analysis : Analysis
plain_analysis = record {
  pow2 = 3;
  edges_only = false;
  count_class_lookup = λ b. b;
  orig_cksum = 77;
}

abbrev three_bytes : List ℕ
three_bytes = 9 ∷ 200 ∷ 48 ∷ []

analyze_lem_example :
    Allows first_byte plain_analysis
      (IsAnalyzed first_byte plain_analysis three_bytes)
      (analyze first_byte plain_analysis three_bytes 0)
analyze_lem_example =
    analyze_lem first_byte plain_analysis three_bytes 0
      (omega arith, (omega arith, (omega arith, tt)))
