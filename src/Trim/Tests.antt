-- ===== src/Trim/Tests.antt =====
-- A run of the trimmer on a small input.
use nfuzzer.Base.{ℕ, ◌≡◌, arith, false, some, List, [], ◌∷◌, get_or}
use nfuzzer.Trim.{Target, Trimming, trim_case}
use nfuzzer.Trim.Kept.{IsKept, trim_case_lem}

-- A target that looks at the first byte only.
abbrev first_byte : Target
first_byte n input = record { fault = 0; stop_soon = false; trace_bits = get_or input 0 0 ∷ [] }

abbrev head_hash : List ℕ → ℕ
head_hash trace = get_or trace 0 0

abbrev long_input : List ℕ
long_input = 9 ∷ 8 ∷ 7 ∷ 6 ∷ 5 ∷ 4 ∷ 3 ∷ []

trim_case_lem_example :
    (t : Trimming) × (trim_case first_byte head_hash 9 long_input 0 ≡ some t)
    × IsKept first_byte head_hash 9 long_input t.in_buf
trim_case_lem_example = trim_case_lem first_byte head_hash 9 long_input 0 (omega arith)
