-- ===== src/Analyze.antt =====
-- The analyzer fuzzer/afl-analyze.c: what run_target() makes of a run, and the walk of analyze()
-- over the bytes of the input. The run itself is a parameter that may answer differently each time.
-- A 32-bit checksum of 0 stands for a run that has timed out, as in the code.
use nfuzzer.Base.{
  ℕ, zero, suc, ◌+◌, ◌-◌, ◌%◌, Bool, not, leb, ◌&&◌, ◌||◌, ◌==◌, if◌then◌else◌, bit_or, bit_xor,
  List, [], ◌∷◌, ◌++◌, length, get_or, set, Option, none, some,
}
use nfuzzer.Config.{map_size}
use nfuzzer.Bitmap.Classes.{classify_bytes}
use nfuzzer.Hash.{hash32, hash_const}
use nfuzzer.Tmin.Verdict.{Observed, cannot_execute}
use nfuzzer.Mutate.Draw.{Draw, give, ◌>>=◌}
pub mod Classes
pub mod Explained
mod Tests

-- RESP_NONE, RESP_MINOR, RESP_VARIABLE, RESP_FIXED
abbrev pub resp_none : ℕ
resp_none = 0x00

abbrev pub resp_minor : ℕ
resp_minor = 0x01

abbrev pub resp_variable : ℕ
resp_variable = 0x02

abbrev pub resp_fixed : ℕ
resp_fixed = 0x03

-- The options, with `count_class_lookup` as a function, and `orig_cksum`.
pub record Analysis : Type 0 where
  pub pow2 : ℕ
  pub edges_only : Bool
  pub count_class_lookup : ℕ → ℕ
  pub orig_cksum : ℕ

-- `xor_ff`, `xor_01`, `sub_10` and `add_10`
pub record Cksums : Type 0 where
  pub xor_ff : ℕ
  pub xor_01 : ℕ
  pub sub_10 : ℕ
  pub add_10 : ℕ

pub record Probe : Type 0 where
  pub in_data : List ℕ
  pub cksums : Cksums

pub record Report : Type 0 where
  pub in_data : List ℕ
  pub b_data : List ℕ
  pub boring_len : ℕ

-- What run_target() returns, or `none` where it ends the process: the target could not be executed, or
-- the user has stopped it.
unfoldable pub response : Analysis → Observed → Option ℕ
response a seen =
    let cksum =
      hash32 (classify_bytes a.edges_only a.count_class_lookup (map_size a.pow2) seen.trace_bits)
        hash_const in
    if cannot_execute seen.trace_bits || seen.stop_soon
    then none
    else some (
        if seen.child_timed_out
        then 0
        else (if seen.crashed then bit_xor cksum 0xffffffff else cksum))

-- `b_data[i]` without `seq_byte`
unfoldable pub behavior : ℕ → Cksums → ℕ
behavior orig_cksum c =
    let xff_orig = c.xor_ff == orig_cksum in
    let x01_orig = c.xor_01 == orig_cksum in
    let s10_orig = c.sub_10 == orig_cksum in
    let a10_orig = c.add_10 == orig_cksum in
    if xff_orig && x01_orig && s10_orig && a10_orig
    then resp_none
    else (if xff_orig || x01_orig || s10_orig || a10_orig
        then resp_minor
        else (if c.xor_ff == c.xor_01 && c.xor_ff == c.sub_10 && c.xor_ff == c.add_10
            then resp_fixed
            else resp_variable))

-- `seq_byte ^= 0x80` when all four differ from the previous ones.
unfoldable pub next_seq : Cksums → Cksums → ℕ → ℕ
next_seq prev c seq_byte =
    if not (prev.xor_ff == c.xor_ff)
      && not (prev.xor_01 == c.xor_01)
      && not (prev.sub_10 == c.sub_10)
      && not (prev.add_10 == c.add_10)
    then bit_xor seq_byte 0x80
    else seq_byte

module _ {G : Type 0} (execute : G → List ℕ → G × Observed) (a : Analysis) where
  unfoldable pub run_target : List ℕ → Draw G ℕ
  run_target mem g =
      let (g', seen) = execute g mem in
      elim (response a seen) [ none ↦ none | some cksum ↦ some (cksum, g') ]

  -- The four runs for the byte `i`, which is changed in place and put back.
  unfoldable pub probe_at : ℕ → List ℕ → Draw G Probe
  probe_at i in_data = do
    let v1 = bit_xor (get_or in_data i 0) 0xff
    xor_ff ← run_target (set in_data i v1)
    let v2 = bit_xor v1 0xfe
    xor_01 ← run_target (set in_data i v2)
    let v3 = (bit_xor v2 0x01 + 256 - 0x10) % 256
    sub_10 ← run_target (set in_data i v3)
    let v4 = (v3 + 0x20) % 256
    add_10 ← run_target (set in_data i v4)
    give (record {
      in_data = set in_data i ((v4 + 256 - 0x10) % 256);
      cksums = record { xor_ff = xor_ff; xor_01 = xor_01; sub_10 = sub_10; add_10 = add_10 };
    })

  -- The loop: `left` bytes from `i` on.
  unfoldable pub analyze_from : (left i : ℕ) → Cksums → ℕ → List ℕ → Draw G Report
  analyze_from zero i prev seq_byte in_data =
      give (record { in_data = in_data; b_data = []; boring_len = 0 })
  analyze_from (suc left) i prev seq_byte in_data = do
    p ← probe_at i in_data
    let class = behavior a.orig_cksum p.cksums
    let seq = next_seq prev p.cksums seq_byte
    rest ← analyze_from left (i + 1) p.cksums seq p.in_data
    give (record {
      in_data = rest.in_data;
      b_data = bit_or class seq ∷ rest.b_data;
      boring_len = if leb class resp_minor then rest.boring_len + 1 else rest.boring_len;
    })

  -- The array ends with a terminator.
  unfoldable pub analyze : List ℕ → Draw G Report
  analyze in_data = do
    let none_before : Cksums = record { xor_ff = 0; xor_01 = 0; sub_10 = 0; add_10 = 0 }
    r ← analyze_from (length in_data) 0 none_before 0 in_data
    give (record {
      in_data = r.in_data;
      b_data = r.b_data ++ (0xff ∷ []);
      boring_len = r.boring_len;
    })
