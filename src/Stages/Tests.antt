-- ===== src/Stages/Tests.antt =====
-- Runs of the deterministic stages on a small input.
use nfuzzer.Base.{ℕ, ◌+◌, ◌%◌, ◌≡◌, arith, Bool, false, List, [], ◌∷◌}
use nfuzzer.Base.Bytes.{IsBytes}
use nfuzzer.Stages.Tries.{Going}
use nfuzzer.Stages.Extras.{Extra}
use nfuzzer.Stages.Det.{Engine, Job, Point, deterministic}
use nfuzzer.Stages.Det.Kept.{deterministic-out_buf}

-- The world counts the runs; the trace is one of three.
abbrev count_run : ℕ → List ℕ → ℕ × Bool
count_run n buf = (n + 1, false)

abbrev trace_cksum : ℕ → ℕ
trace_cksum n = n % 3

abbrev skip_auto : ℕ → List ℕ → ℕ
skip_auto n token = n

abbrev token : Extra
token = record { bytes = 7 ∷ 9 ∷ []; hit_cnt = 0 }

abbrev counter : Engine ℕ
counter = record {
  fuzz_stuff = count_run;
  cksum_of = trace_cksum;
  add_auto = skip_auto;
  ur = λ n limit. (n, 0);
  a_extras = λ n. token ∷ [];
}

abbrev job : Job
job = record { dumb_mode = false; no_arith = false; exec_cksum = 1; extras = token ∷ token ∷ [] }

abbrev seed : List ℕ
seed = 1 ∷ 200 ∷ 3 ∷ 4 ∷ 255 ∷ []

abbrev full_map : List ℕ
full_map = 1 ∷ []

seed-IsBytes : IsBytes seed
seed-IsBytes = (omega arith, (omega arith, (omega arith, (omega arith, (omega arith, tt)))))

deterministic-out_buf_example :
    Going (λ (p : Point ℕ). p.out_buf ≡ seed) (deterministic counter job seed 0)
deterministic-out_buf_example =
    deterministic-out_buf counter job seed seed-IsBytes (omega arith) 0
      (omega arith, (omega arith, tt)) (λ w. (omega arith, tt))
