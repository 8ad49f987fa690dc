-- ===== src/Tmin/Verdict.antt =====
-- run_target() of fuzzer/afl-tmin.c after the child has ended, and the first run of main().
use nfuzzer.Base.{ℕ, Bool, true, false, ◌==◌, if◌then◌else◌, List, Option, take}
use nfuzzer.Base.Bytes.{load}
use nfuzzer.Config.{map_size}
use nfuzzer.Bitmap.Classes.{classify_bytes}
use nfuzzer.Bitmap.Simplify.{apply_mask}
use nfuzzer.Hash.{hash32, hash_const}

-- What a run leaves: `stop_soon`, `child_timed_out`, whether the child crashed by its exit status,
-- and the map.
pub record Observed : Type 0 where
  pub stop_soon : Bool
  pub child_timed_out : Bool
  pub crashed : Bool
  pub trace_bits : List ℕ

-- The options, with `count_class_lookup` as a function.
pub record Options : Type 0 where
  pub pow2 : ℕ
  pub edges_only : Bool
  pub exact_mode : Bool
  pub mask_bitmap : Option (List ℕ)
  pub count_class_lookup : ℕ → ℕ

-- What the first run fixes.
pub record Mode : Type 0 where
  pub options : Options
  pub crash_mode : Bool
  pub orig_cksum : ℕ

-- EXEC_FAIL_SIG
abbrev pub exec_fail_sig : ℕ
exec_fail_sig = 0xfee1dead

-- `*(u32*)trace_bits == EXEC_FAIL_SIG`: the target could not be executed.
unfoldable pub cannot_execute : List ℕ → Bool
cannot_execute trace_bits = load (take 4 trace_bits) == exec_fail_sig

-- The checksum of a trace, when its counts are classified and the mask is applied.
unfoldable pub cksum_of : Options → List ℕ → ℕ
cksum_of o trace_bits =
    hash32
      (apply_mask o.pow2
        (classify_bytes o.edges_only o.count_class_lookup (map_size o.pow2) trace_bits)
        o.mask_bitmap)
      hash_const

-- What is returned after the first run, if the user does not stop it.
unfoldable pub verdict : Mode → Observed → Bool
verdict m seen =
    let cksum = cksum_of m.options seen.trace_bits in
    if seen.child_timed_out
    then false
    else (if seen.crashed
        then (if m.crash_mode
            then (if m.options.exact_mode then m.orig_cksum == cksum else true)
            else false)
        else (if m.crash_mode then false else m.orig_cksum == cksum))

-- The first run, `first_run` being set.
unfoldable pub first_mode : Options → Observed → Mode
first_mode o seen = record {
  options = o;
  crash_mode = seen.crashed;
  orig_cksum = cksum_of o seen.trace_bits;
}
