-- ===== src/Trim.antt =====
-- trim_case and write_with_gap of fuzzer/afl-fuzz.c: parts of an input are cut out as long as the
-- run of the target keeps its checksum. The target is a parameter that may answer differently at
-- each run, and so is the hash of a trace. `in_buf` with `q->len` is a list.
use nfuzzer.Base.{
  ℕ, zero, suc, ◌+◌, ◌-◌, ◌*◌, ◌/◌, min, max, Bool, true, false, ◌||◌, ltb, leb, ◌==◌, Option, none,
  some, ◌>>=◌, List, ◌++◌, length, take, drop,
}
use nfuzzer.Havoc.Blocks.{next_p2}
use nfuzzer.Stages.Words.{put, bytes_at}
pub mod Kept
mod Tests

-- TRIM_MIN_BYTES, TRIM_START_STEPS, TRIM_END_STEPS
abbrev pub trim_min_bytes : ℕ
trim_min_bytes = 4

abbrev pub trim_start_steps : ℕ
trim_start_steps = 16

abbrev pub trim_end_steps : ℕ
trim_end_steps = 1024

-- FAULT_ERROR
abbrev pub fault_error : ℕ
fault_error = 3

-- What a run of the target leaves: its fault, `stop_soon`, and `trace_bits`.
pub record Run : Type 0 where
  pub fault : ℕ
  pub stop_soon : Bool
  pub trace_bits : List ℕ

-- The run with a number, on an input.
abbrev pub Target : Type 0
Target = ℕ → List ℕ → Run

-- `in_buf` up to `q->len`, `fault`, `trim_execs`, and `clean_trace` if `needs_write` is set.
pub record Trimming : Type 0 where
  pub in_buf : List ℕ
  pub fault : ℕ
  pub trim_execs : ℕ
  pub clean_trace : Option (List ℕ)
  pub aborted : Bool

-- The bytes that write_with_gap writes: all but `skip_len` bytes from `skip_at` on.
unfoldable pub write_with_gap : List ℕ → ℕ → ℕ → List ℕ
write_with_gap mem skip_at skip_len = take skip_at mem ++ drop (skip_at + skip_len) mem

-- memmove() of the bytes behind the gap onto it, in the buffer of which the first `q->len` bytes
-- then are kept.
unfoldable pub move_tail : List ℕ → ℕ → ℕ → List ℕ
move_tail in_buf remove_pos trim_avail =
    let tail = length in_buf - remove_pos - trim_avail in
    take (length in_buf - trim_avail)
      (put remove_pos (bytes_at (remove_pos + trim_avail) tail in_buf) in_buf)

-- The first trace that is kept stays.
unfoldable pub keep_trace : Option (List ℕ) → List ℕ → Option (List ℕ)
keep_trace none trace = some trace
keep_trace (some clean) trace = some clean

module _ (target : Target) (hash32 : List ℕ → ℕ) (exec_cksum : ℕ) where
  -- The loop over `remove_pos`, with fuel: `none` when it is used up.
  unfoldable pub trim_pass : ℕ → ℕ → ℕ → Trimming → Option Trimming
  trim_pass zero remove_len remove_pos t = none
  trim_pass (suc fuel) remove_len remove_pos t =
      let trim_avail = min remove_len (length t.in_buf - remove_pos) in
      let gapped = write_with_gap t.in_buf remove_pos trim_avail in
      let r = target t.trim_execs gapped in
      elim (ltb remove_pos (length t.in_buf)) [
        | false ↦ some t
        | true ↦ elim (r.stop_soon || r.fault == fault_error) [
          | true ↦
              some (record t { fault = r.fault; trim_execs = t.trim_execs + 1; aborted = true })
          | false ↦ elim (hash32 r.trace_bits == exec_cksum) [
            | true ↦ trim_pass fuel remove_len remove_pos (record t {
              in_buf = move_tail t.in_buf remove_pos trim_avail;
              fault = r.fault;
              trim_execs = t.trim_execs + 1;
              clean_trace = keep_trace t.clean_trace r.trace_bits;
            })
            | false ↦
                trim_pass fuel remove_len (remove_pos + remove_len)
                  (record t { fault = r.fault; trim_execs = t.trim_execs + 1 })
          ]
        ]
      ]

  -- The loop over `remove_len`; `len_p2` is next_p2 of the current length throughout.
  unfoldable pub trim_steps : ℕ → ℕ → Trimming → Option Trimming
  trim_steps zero remove_len t = none
  trim_steps (suc fuel) remove_len t = do
    len_p2 ← next_p2 (length t.in_buf)
    elim (leb (max (len_p2 / trim_end_steps) trim_min_bytes) remove_len) [
      | false ↦ some t
      | true ↦ do
        done ← trim_pass (length t.in_buf + 1) remove_len remove_len t
        elim done.aborted [ true ↦ some done | false ↦ trim_steps fuel (remove_len / 2) done ]
    ]

  -- Inputs below 5 bytes are left alone. 33 steps are enough for a 32-bit length.
  unfoldable pub trim_case : List ℕ → ℕ → Option Trimming
  trim_case in_buf trim_execs = do
    let start : Trimming = record {
      in_buf = in_buf;
      fault = 0;
      trim_execs = trim_execs;
      clean_trace = none;
      aborted = false;
    }
    len_p2 ← next_p2 (length in_buf)
    elim (ltb (length in_buf) 5) [
      | true ↦ some start
      | false ↦ trim_steps 33 (max (len_p2 / trim_start_steps) trim_min_bytes) start
    ]
