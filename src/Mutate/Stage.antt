-- ===== src/Mutate/Stage.antt =====
-- The havoc stage of fuzz_one() in fuzzer/afl-fuzz.c: how many runs it makes, what a run leaves in
-- `out_buf`, and how finds prolong it. Stage names and the counters of the status screen are left
-- out. A chunk tree is put back by the code only if a structure-aware mutation has come back, which
-- none does. The counters are not cut to 32 bits: calculate_score() gives at most 3200, so that they
-- stay far below.
use nfuzzer.Base.{
  ℕ, zero, suc, ◌+◌, ◌*◌, ◌/◌, Bool, true, false, ltb, leb, ◌==◌, if◌then◌else◌, max, List, ◌++◌,
  length, take, replicate, some, none,
}
use nfuzzer.Havoc.Energy.{havoc_max_mult}
use nfuzzer.Stages.Words.{put}
use nfuzzer.Mutate.Draw.{Source}
use nfuzzer.Mutate.Switch.{Setting, Tweaked, Next, on, exited, mutate}
pub mod Ends

-- HAVOC_CYCLES, HAVOC_CYCLES_INIT, HAVOC_MIN, SPLICE_HAVOC
abbrev pub havoc_cycles : ℕ
havoc_cycles = 256

abbrev pub havoc_cycles_init : ℕ
havoc_cycles_init = 1024

abbrev pub havoc_min : ℕ
havoc_min = 16

abbrev pub splice_havoc : ℕ
splice_havoc = 32

-- The fuzzer around the stage: its random numbers, common_fuzz_stuff() and `queued_paths`.
pub record Fuzzer (G : Type 0) : Type 0 where
  pub src : Source G
  pub fuzz_stuff : G → List ℕ → G × Bool
  pub queued_paths : G → ℕ

-- The variables of the stage with the rest of the world.
pub record Havoc (G : Type 0) : Type 0 where
  pub world : G
  pub out_buf : List ℕ
  pub stage_cur : ℕ
  pub stage_max : ℕ
  pub perf_score : ℕ
  pub havoc_queued : ℕ

-- The ways in which the stage ends; `unfinished` is when the fuel is used up.
pub data StageEnd (G : Type 0) : Type 0 where
  finished : Havoc G → StageEnd G
  abandoned : G → StageEnd G
  exit_called : G → StageEnd G
  faulted : StageEnd G
  unfinished : StageEnd G

-- A run goes on to the next, or ends the stage.
pub data RunEnd (G : Type 0) : Type 0 where
  again : Havoc G → RunEnd G
  stop : StageEnd G → RunEnd G

-- `stage_max` at the start. For splicing, `perf_score` is `orig_perf`.
unfoldable pub havoc_runs : (splicing doing_det : Bool) (perf_score havoc_div : ℕ) → ℕ
havoc_runs splicing doing_det perf_score havoc_div =
    let cycles =
      if splicing then splice_havoc else (if doing_det then havoc_cycles_init else havoc_cycles) in
    max (cycles * perf_score / havoc_div / 100) havoc_min

-- `out_buf` is cut or extended to `len` bytes, and the input is copied back.
unfoldable pub restored : List ℕ → List ℕ → List ℕ
restored in_buf b = let len = length in_buf in put 0 in_buf (take len (b ++ replicate len 0))

-- `if (queued_paths != havoc_queued) …`
unfoldable pub prolong : {G : Type 0} → ℕ → Havoc G → Havoc G
prolong queued_paths h =
    if queued_paths == h.havoc_queued
    then h
    else (if leb h.perf_score (havoc_max_mult * 100)
        then record h {
          stage_max = h.stage_max * 2;
          perf_score = h.perf_score * 2;
          havoc_queued = queued_paths;
        }
        else record h { havoc_queued = queued_paths })

module _ {G : Type 0} (fz : Fuzzer G) (s : Setting) (in_buf : List ℕ) where
  -- common_fuzz_stuff() on the mutated file, and what follows it.
  unfoldable pub run_mutated : Havoc G → List ℕ → G → RunEnd G
  run_mutated h b g =
      let (g', bail) = fz.fuzz_stuff g b in
      elim bail [
        | true ↦ stop (abandoned g')
        | false ↦
            again
              (prolong (fz.queued_paths g') (record h { world = g'; out_buf = restored in_buf b }))
      ]

  unfoldable pub after_mutation : Havoc G → Next Tweaked → G → RunEnd G
  after_mutation h (on t) g = run_mutated h t.out_buf g
  after_mutation h exited g = stop (exit_called g)

  unfoldable pub havoc_run : Havoc G → RunEnd G
  havoc_run h = elim (mutate fz.src s h.out_buf h.world) [
    | none ↦ stop faulted
    | some (next, g) ↦ after_mutation h next g
  ]

  -- `for (stage_cur = 0; stage_cur < stage_max; stage_cur++)`, with fuel.
  unfoldable pub havoc_loop : ℕ → Havoc G → StageEnd G
  havoc_loop zero h = unfinished
  havoc_loop (suc fuel) h = elim (ltb h.stage_cur h.stage_max) [
    | false ↦ finished h
    | true ↦ elim (havoc_run h) [
      | stop e ↦ e
      | again h' ↦ havoc_loop fuel (record h' { stage_cur = h'.stage_cur + 1 })
    ]
  ]

  -- Each prolonging doubles the score too, so the first `stage_max` times the highest score is more
  -- runs than there are.
  unfoldable pub havoc_stage : (doing_det : Bool) (perf_score havoc_div : ℕ) → G → StageEnd G
  havoc_stage doing_det perf_score havoc_div g =
      let runs = havoc_runs s.splicing doing_det perf_score havoc_div in
      elim (havoc_div == 0) [
        | true ↦ faulted
        | false ↦ havoc_loop (runs * max perf_score (2 * havoc_max_mult * 100) + 1) (record {
          world = g;
          out_buf = in_buf;
          stage_cur = 0;
          stage_max = runs;
          perf_score = perf_score;
          havoc_queued = fz.queued_paths g;
        })
      ]
