-- ===== src/Mutate/Tests.antt =====
-- The random stages on an input of five bytes.
use nfuzzer.Base.{ℕ, ◌+◌, ◌-◌, ◌*◌, ◌≡◌, ◌≤◌, ◌<◌, ◌⊎◌, arith, false, none, some, List, [], ◌∷◌}
use nfuzzer.Havoc.Blocks.{ur}
use nfuzzer.Stages.Extras.{max_file}
use nfuzzer.Mutate.Draw.{Source, Ensures}
use nfuzzer.Mutate.Switch.{Setting, mutate}
use nfuzzer.Mutate.Switch.Bounds.{IsFine, mutate-IsFine}
use nfuzzer.Mutate.Stage.{Fuzzer, havoc_runs, havoc_stage}
use nfuzzer.Mutate.Stage.Ends.{HasEnded, havoc_stage_lem}
use nfuzzer.Mutate.Splice.{splice_files}
use nfuzzer.Mutate.Splice.Diffs.{Agree, Differ, IsSplice, splice_files_lem}

abbrev counter : Source ℕ
counter = record { random = λ g. (g, g * 5 + 3); queue_cycle = 1; run_over10m = false }

abbrev plain : Setting
plain = record {
  smart_mode = false;
  stacking_mutation_mode = false;
  splicing = false;
  has_chunk = false;
  smart_mutation_limit = 0;
  extras = [];
  a_extras = [];
}

-- common_fuzz_stuff() that never has the entry abandoned, and finds nothing.
abbrev quiet : Fuzzer ℕ
quiet = record { src = counter; fuzz_stuff = λ g _. (g + 1, false); queued_paths = λ _. 1 }

abbrev five_bytes : List ℕ
five_bytes = 1 ∷ 2 ∷ 3 ∷ 4 ∷ 5 ∷ []

abbrev other_bytes : List ℕ
other_bytes = 1 ∷ 9 ∷ 3 ∷ 8 ∷ 5 ∷ 6 ∷ []

mutate-IsFine_example : Ensures (IsFine plain max_file) (mutate counter plain five_bytes)
mutate-IsFine_example =
    mutate-IsFine counter plain max_file (omega arith) (omega arith) five_bytes
      (omega arith, omega arith)

havoc_stage_lem_example :
    HasEnded quiet plain five_bytes
      (havoc_runs false false 100 1)
      100
      (havoc_stage quiet plain five_bytes false 100 1 7)
havoc_stage_lem_example =
    havoc_stage_lem quiet plain five_bytes max_file false 100 1 7 (omega arith) (omega arith)
      (omega arith, omega arith) (omega arith) (omega arith)

splice_files_lem_example :
    Agree five_bytes other_bytes × (splice_files five_bytes other_bytes 1 ≡ none)
    ⊎ ((i : ℕ) × (j : ℕ) × Differ five_bytes other_bytes i j
        × ((j < 2 ⊎ i ≡ j) × (splice_files five_bytes other_bytes 1 ≡ none)
            ⊎ ((b : List ℕ) × (splice_files five_bytes other_bytes 1 ≡ some b)
                × (2 ≤ j)
                × IsSplice five_bytes other_bytes i j (i + ur 1 (j - i)) b)))
splice_files_lem_example = splice_files_lem five_bytes other_bytes 1
