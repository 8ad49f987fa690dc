-- ===== src/Tmin/Main.antt =====
-- read_initial_file() and the end of main() of fuzzer/afl-tmin.c: the first run, the minimizer, and
-- the file that is written. FATAL() ends the process without one.
use nfuzzer.Base.{
  ℕ, ◌≤◌, ◌^◌, ◌≡◌, refl, arith, Bool, true, false, not, ltb, ◌&&◌, ◌||◌, if◌then◌else◌, List,
  length, Bool-cases, inl, inr, ◌⊎◌,
}
use nfuzzer.Config.{map_size}
use nfuzzer.Bitmap.Classes.{classify_bytes}
use nfuzzer.Bitmap.Simplify.{apply_mask, anything_set}
use nfuzzer.Tmin.Verdict.{Observed, Options, cannot_execute, verdict, first_mode}
use nfuzzer.Tmin.{Progress, going, written, aborted, unfinished, minimize}
use nfuzzer.Tmin.Kept.{IsAccepted, IsOutput, minimize-Result, Result}

-- TMIN_MAX_FILE
abbrev pub tmin_max_file : ℕ
tmin_max_file = 10485760

-- How the process ends: with FATAL(), after it has written the output file, or never, when the fuel
-- of a loop is used up.
pub data Ended : Type 0 where
  fatal : Ended
  output : List ℕ → Ended
  stuck : Ended

-- The sizes that read_initial_file() takes.
unfoldable pub is_readable : List ℕ → Bool
is_readable in_data = ltb 0 (length in_data) && ltb (length in_data) tmin_max_file

-- anything_set() on the map after the first run.
unfoldable pub is_instrumented : Options → List ℕ → Bool
is_instrumented o trace_bits = anything_set o.pow2 (
    apply_mask o.pow2
      (classify_bytes o.edges_only o.count_class_lookup (map_size o.pow2) trace_bits) o.mask_bitmap)

unfoldable pub write_output : {G : Type 0} → Progress G → Ended
write_output (going t) = output t.in_data
write_output (written t) = output t.in_data
write_output aborted = fatal
write_output unfinished = stuck

module _ {G : Type 0} (execute : G → List ℕ → G × Observed) (o : Options) where
  -- After the first run.
  unfoldable pub after_first : List ℕ → G → Observed → Ended
  after_first in_data g seen =
      if cannot_execute seen.trace_bits
      then fatal
      else (if seen.stop_soon
          then output in_data
          else (if seen.child_timed_out
                || not seen.crashed && not (is_instrumented o seen.trace_bits)
              then fatal
              else write_output (minimize execute (first_mode o seen) in_data g)))

  unfoldable pub main : List ℕ → G → Ended
  main in_data g =
      let (g', seen) = execute g in_data in
      if is_readable in_data then after_first in_data g' seen else fatal

-- The file that is written is not longer than the input. If the user has not stopped the first run,
-- some run on it was not stopped and did not time out; it crashed if the first run did, and not if
-- that did not; and its checksum is that of the first run, unless both crashed and the mode is not
-- exact.
abbrev pub IsMinimized :
    {G : Type 0} → (G → List ℕ → G × Observed) → Options → List ℕ → G → Ended → Type 0
IsMinimized execute o in_data g fatal = Unit
IsMinimized execute o in_data g stuck = ⊥
IsMinimized execute o in_data g (output b) =
    let first = (execute g in_data).1 in
    (length b ≤ length in_data)
    × ((first.stop_soon ≡ true) × (b ≡ in_data)
        ⊎ IsAccepted execute (first_mode o first) (length in_data) b)

own_verdict :
    (o : Options) (seen : Observed)
    → seen.child_timed_out ≡ false
    → verdict (first_mode o seen) seen ≡ true
unfolding verdict first_mode
own_verdict o seen h = ground (arith, h)

module _ {G : Type 0} (execute : G → List ℕ → G × Observed) (o : Options) (in_data : List ℕ)
    (g : G) where
  write_output-IsMinimized :
      (p : Progress G)
      → Result execute
          (first_mode o (execute g in_data).1)
          (length in_data)
          (λ t. IsOutput execute (first_mode o (execute g in_data).1) (length in_data) t.in_data)
          p
      → IsMinimized execute o in_data g (write_output p)
  unfolding write_output
  write_output-IsMinimized (going t) h = (h.short, inr h.sound)
  write_output-IsMinimized (written t) h = (h.short, inr h.sound)
  write_output-IsMinimized aborted h = tt
  write_output-IsMinimized unfinished h = h

  after_first-IsMinimized :
      (g' : G)
      → length in_data ≤ 2 ^ 31
      → IsMinimized execute o in_data g (after_first execute o in_data g' (execute g in_data).1)
  unfolding after_first first_mode
  after_first-IsMinimized g' small =
      let seen = (execute g in_data).1 in
      let m = first_mode o seen in
      elim (Bool-cases (cannot_execute seen.trace_bits)) [
        | inl failed ↦ rw failed tt
        | inr ran ↦ rw ran (elim (Bool-cases seen.stop_soon) [
          | inl stop ↦ rw stop (omega arith, inl (stop, refl))
          | inr run ↦
              rw run
                (elim (Bool-cases (
                  seen.child_timed_out
                  || not seen.crashed && not (is_instrumented o seen.trace_bits))) [
                    | inl bad ↦ rw bad tt
                    | inr good ↦ rw good (
                        write_output-IsMinimized _ (
                          minimize-Result execute m (length in_data) small in_data g' refl (record {
                            sound = (g, run, own_verdict o seen (ground (arith, good)));
                            short = omega arith;
                          })))
                  ])
        ])
      ]

-- The minimizer ends, whatever the target does, also one that answers differently from run to run:
-- it fails without an output file, or it writes a file that is not longer than the input. If the
-- user has not stopped the first run, some run on that file was not stopped and had the verdict 1
-- by the mode of the first run, and if he has, the file is the input.
pub main-IsMinimized :
    {G : Type 0} (execute : G → List ℕ → G × Observed) (o : Options) (in_data : List ℕ) (g : G)
    → IsMinimized execute o in_data g (main execute o in_data g)
unfolding main is_readable
main-IsMinimized execute o in_data g = elim (Bool-cases (is_readable in_data)) [
  | inl fits ↦
      rw (fits, is_readable) (after_first-IsMinimized execute o in_data g _ (ground (arith, fits)))
  | inr bad ↦ rw (bad, is_readable) tt
]
