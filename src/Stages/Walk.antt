-- ===== src/Stages/Walk.antt =====
-- The walking bit flips of fuzz_one() in fuzzer/afl-fuzz.c, with the tokens that bitflip 1/1
-- collects for the dictionary.
use nfuzzer.Base.{
  ℕ, zero, suc, ◌+◌, ◌-◌, ◌*◌, ◌/◌, ◌%◌, ◌≤◌, ◌<◌, ◌≡◌, refl, ◌∙◌, arith, Bool, true, false, not,
  ◌&&◌, ltb, leb, ◌==◌, List, [], ◌∷◌, length, get_or, set, take, replicate, if◌then◌else◌,
}
use nfuzzer.Stages.Flip.{flip_bits}
use nfuzzer.Stages.Tries.{Stage, Outcome, going, abandoned, ◌>>=◌, run_target}
pub mod Restore

-- MIN_AUTO_EXTRA, MAX_AUTO_EXTRA
abbrev pub min_auto_extra : ℕ
min_auto_extra = 3

abbrev pub max_auto_extra : ℕ
max_auto_extra = 32

-- `a_collect`, `a_len` and `prev_cksum`, with the stage.
pub record Collecting (S : Type 0) : Type 0 where
  pub stage : Stage S
  pub a_collect : List ℕ
  pub a_len : ℕ
  pub prev_cksum : ℕ

-- `if (a_len < MAX_AUTO_EXTRA) a_collect[a_len] = …; a_len++;`
unfoldable pub collect : {S : Type 0} → Collecting S → ℕ → Collecting S
collect c byte = record c {
  a_collect = if ltb c.a_len max_auto_extra then set c.a_collect c.a_len byte else c.a_collect;
  a_len = c.a_len + 1;
}

module _ {S : Type 0} (fuzz_stuff : S → List ℕ → S × Bool) where
  -- A round of the stages that flip `n` bits from bit `stage_cur` on: flip, run, flip back.
  unfoldable pub walk_bit : ℕ → ℕ → Stage S → Outcome S (Stage S)
  walk_bit n bit t = do
    t' ← run_target fuzz_stuff (record t { out_buf = flip_bits t.out_buf bit n })
    going (record t' { out_buf = flip_bits t'.out_buf bit n })

  -- `left` rounds from bit `stage_cur` on.
  unfoldable pub walk_bits : ℕ → ℕ → Stage S → Outcome S (Stage S)
  walk_bits n zero t = going t
  walk_bits n (suc left) t = do
    t' ← walk_bit n t.stage_cur t
    walk_bits n left (record t' { stage_cur = t'.stage_cur + 1 })

  -- bitflip 2/1 and 4/1: `stage_max` is `(len << 3)` less the bits but one.
  unfoldable pub bitflip : ℕ → List ℕ → S → Outcome S (Stage S)
  bitflip n buf s =
      let rounds = 8 * length buf + 1 - n in
      walk_bits n rounds (record { out_buf = buf; world = s; stage_cur = 0; stage_max = rounds })

  -- What bitflip 1/1 does after the last bit of a byte; `hash32` of the trace is read from the
  -- world, and `add_auto` is maybe_add_auto().
  module _ (cksum_of : S → ℕ) (add_auto : S → List ℕ → S) (exec_cksum : ℕ) where
    unfoldable pub offer : Collecting S → Collecting S
    offer c =
        if leb min_auto_extra c.a_len && leb c.a_len max_auto_extra
        then record c {
          stage = record (c.stage) { world = add_auto c.stage.world (take c.a_len c.a_collect) };
        }
        else c

    unfoldable pub after_byte : ℕ → Collecting S → Collecting S
    after_byte bit c =
        let cksum = cksum_of c.stage.world in
        let byte = get_or c.stage.out_buf (bit / 8) 0 in
        let offered =
          if bit == c.stage.stage_max - 1 && cksum == c.prev_cksum
          then offer (collect c byte)
          else (if cksum == c.prev_cksum
              then c
              else record (offer c) { a_len = 0; prev_cksum = cksum }) in
        if cksum == exec_cksum then offered else collect offered byte

    unfoldable pub collect_bit : Bool → Collecting S → Outcome S (Collecting S)
    collect_bit dumb_mode c = do
      t ← walk_bit 1 c.stage.stage_cur c.stage
      let c' : Collecting S = record c { stage = t }
      going (if not dumb_mode && t.stage_cur % 8 == 7 then after_byte t.stage_cur c' else c')

    unfoldable pub collect_bits : Bool → ℕ → Collecting S → Outcome S (Collecting S)
    collect_bits dumb_mode zero c = going c
    collect_bits dumb_mode (suc left) c = do
      c' ← collect_bit dumb_mode c
      collect_bits dumb_mode left
          (record c' { stage = record (c'.stage) { stage_cur = c'.stage.stage_cur + 1 } })

    -- bitflip 1/1
    unfoldable pub bitflip_collecting : Bool → List ℕ → S → Outcome S (Collecting S)
    bitflip_collecting dumb_mode buf s = collect_bits dumb_mode (8 * length buf) (record {
      stage = record { out_buf = buf; world = s; stage_cur = 0; stage_max = 8 * length buf };
      a_collect = replicate max_auto_extra 0;
      a_len = 0;
      prev_cksum = exec_cksum;
    })
