-- ===== src/Stages/Effector.antt =====
-- bitflip 8/8 of fuzz_one() in fuzzer/afl-fuzz.c, which finds out the bytes that have an effect,
-- and bitflip 16/8 and 32/8, which consult the map of them.
use nfuzzer.Base.{
  ℕ, zero, suc, ◌+◌, ◌-◌, ◌*◌, ◌/◌, ◌%◌, ◌^◌, ◌≤◌, ◌<◌, ◌≡◌, refl, ◌∙◌, arith, Bool, true, false,
  not, ◌&&◌, ltb, leb, ◌==◌, List, [], ◌∷◌, length, get_or, set, take, drop, replicate,
  if◌then◌else◌, bit_xor,
}
use nfuzzer.Base.Bytes.{load, store}
use nfuzzer.Stages.Words.{put, bytes_at}
use nfuzzer.Stages.Tries.{Stage, Outcome, going, abandoned, ◌>>=◌, run_target, eff_apos, is_idle}
pub mod Flags
pub mod Restore

-- EFF_MIN_LEN, EFF_MAX_PERC
abbrev pub eff_min_len : ℕ
eff_min_len = 128

abbrev pub eff_max_perc : ℕ
eff_max_perc = 90

-- EFF_ALEN
abbrev pub eff_alen : ℕ → ℕ
eff_alen l = l / 8 + (if l % 8 == 0 then 0 else 1)

-- `eff_map` and `eff_cnt`
pub record Effects : Type 0 where
  pub eff_map : List ℕ
  pub eff_cnt : ℕ

-- The first and the last byte are always flagged.
unfoldable pub start_effects : ℕ → Effects
start_effects len =
    let first = set (replicate (eff_alen len) 0) 0 1 in
    if eff_apos (len - 1) == 0
    then record { eff_map = first; eff_cnt = 1 }
    else record { eff_map = set first (eff_apos (len - 1)) 1; eff_cnt = 2 }

-- `if (!eff_map[EFF_APOS(stage_cur)]) …`, by whether the checksum differs.
unfoldable pub note_effect : ℕ → Bool → Effects → Effects
note_effect pos differs e =
    if get_or e.eff_map (eff_apos pos) 0 == 0 && differs
    then record { eff_map = set e.eff_map (eff_apos pos) 1; eff_cnt = e.eff_cnt + 1 }
    else e

-- After the stage: a map that is dense enough is flagged whole. The number is what is added to
-- `blocks_eff_select`.
unfoldable pub settle : ℕ → Effects → Effects × ℕ
settle len e =
    if not (e.eff_cnt == eff_alen len) && ltb eff_max_perc (e.eff_cnt * 100 / eff_alen len)
    then (record e { eff_map = replicate (eff_alen len) 1 }, eff_alen len)
    else (e, e.eff_cnt)

-- The stage with the map.
pub record Probing (S : Type 0) : Type 0 where
  pub stage : Stage S
  pub effects : Effects

-- `out_buf[pos] ^= 0xFF`
unfoldable pub flip_byte : List ℕ → ℕ → List ℕ
flip_byte buf pos = set buf pos (bit_xor (get_or buf pos 0) 0xff)

-- `*(uN*)(out_buf + i) ^= 0xFF…`, for n bytes.
unfoldable pub flip_word : ℕ → List ℕ → ℕ → List ℕ
flip_word n buf i = put i (store n (bit_xor (load (bytes_at i n buf)) (256 ^ n - 1))) buf

module _ {S : Type 0} (fuzz_stuff : S → List ℕ → S × Bool) where
  module _ (cksum_of : S → ℕ) (exec_cksum : ℕ) (dumb_mode : Bool) where
    -- The checksum of the run, or one that differs for sure.
    unfoldable pub cksum_or_flag : ℕ → S → ℕ
    cksum_or_flag len s =
        if not dumb_mode && leb eff_min_len len then cksum_of s else 2 ^ 32 - 1 - exec_cksum

    unfoldable pub probe_byte : Probing S → Outcome S (Probing S)
    probe_byte p =
        let pos = p.stage.stage_cur in
        let len = length p.stage.out_buf in
        do
          t ← run_target fuzz_stuff (record (p.stage) { out_buf = flip_byte p.stage.out_buf pos })
          let cksum = cksum_or_flag len t.world
          going (record {
            stage = record t { out_buf = flip_byte t.out_buf pos };
            effects = note_effect pos (not (cksum == exec_cksum)) p.effects;
          })

    unfoldable pub probe_bytes : ℕ → Probing S → Outcome S (Probing S)
    probe_bytes zero p = going p
    probe_bytes (suc left) p = do
      p' ← probe_byte p
      probe_bytes left
          (record p' { stage = record (p'.stage) { stage_cur = p'.stage.stage_cur + 1 } })

    -- bitflip 8/8, up to the loop's end.
    unfoldable pub bitflip_bytes : List ℕ → S → Outcome S (Probing S)
    bitflip_bytes buf s = probe_bytes (length buf) (record {
      stage = record { out_buf = buf; world = s; stage_cur = 0; stage_max = length buf };
      effects = start_effects (length buf);
    })

  -- A word of `n` bytes at offset i: skipped if none of its bytes has an effect.
  unfoldable pub flip_word_at : List ℕ → ℕ → ℕ → Stage S → Outcome S (Stage S)
  flip_word_at eff_map n i t = elim (is_idle eff_map i n) [
    | true ↦ going (record t { stage_max = t.stage_max - 1 })
    | false ↦ do
      t' ← run_target fuzz_stuff (record t { out_buf = flip_word n t.out_buf i })
      going (record t' { out_buf = flip_word n t'.out_buf i; stage_cur = t'.stage_cur + 1 })
  ]

  unfoldable pub flip_words : List ℕ → ℕ → ℕ → ℕ → Stage S → Outcome S (Stage S)
  flip_words eff_map n zero i t = going t
  flip_words eff_map n (suc left) i t = do
    t' ← flip_word_at eff_map n i t
    flip_words eff_map n left (i + 1) t'

  -- bitflip 16/8 and 32/8
  unfoldable pub bitflip_words : ℕ → List ℕ → List ℕ → S → Outcome S (Stage S)
  bitflip_words n eff_map buf s =
      let offsets = length buf + 1 - n in
      flip_words eff_map n offsets 0
        (record { out_buf = buf; world = s; stage_cur = 0; stage_max = offsets })
