-- ===== src/Stages/Extras.antt =====
-- The dictionary stages of fuzz_one() in fuzzer/afl-fuzz.c: tokens are written over the buffer, and
-- those of the user are inserted.
use nfuzzer.Base.{
  ℕ, zero, suc, ◌+◌, ◌-◌, ◌*◌, ◌/◌, ◌%◌, ◌^◌, ◌≤◌, ◌<◌, ◌≡◌, refl, ◌∙◌, arith, Bool, true, false,
  not, ◌&&◌, ◌||◌, ltb, leb, ◌==◌, List, [], ◌∷◌, ◌++◌, length, get_or, take, drop, if◌then◌else◌,
}
use nfuzzer.Stages.Words.{put, bytes_at}
use nfuzzer.Stages.Tries.{Stage, Outcome, going, abandoned, ◌>>=◌, run_target, eff_apos}
pub mod Restore

-- struct extra_data; `len` is the length of its data.
pub record Extra : Type 0 where
  pub bytes : List ℕ
  pub hit_cnt : ℕ

abbrev pub len_of : Extra → ℕ
len_of e = length e.bytes

-- MAX_DET_EXTRAS, USE_AUTO_EXTRAS, MAX_FILE
abbrev pub max_det_extras : ℕ
max_det_extras = 200

abbrev pub use_auto_extras : ℕ
use_auto_extras = 50

abbrev pub max_file : ℕ
max_file = 1048576

-- `!memcmp(…)` on as many bytes as both have.
unfoldable pub same_bytes : List ℕ → List ℕ → Bool
same_bytes [] [] = true
same_bytes [] (y ∷ ys) = false
same_bytes (x ∷ xs) [] = false
same_bytes (x ∷ xs) (y ∷ ys) = x == y && same_bytes xs ys

-- `memchr(eff_map + from, 1, n)`
unfoldable pub has_flag : List ℕ → ℕ → ℕ → Bool
has_flag eff_map from zero = false
has_flag eff_map from (suc n) = get_or eff_map from 0 == 1 || has_flag eff_map (from + 1) n

-- EFF_SPAN_ALEN
abbrev pub eff_span_alen : ℕ → ℕ → ℕ
eff_span_alen p l = eff_apos (p + l - 1) - eff_apos p + 1

-- A stage with `last_len`.
pub record Over (S : Type 0) : Type 0 where
  pub stage : Stage S
  pub last_len : ℕ

-- `stage_max--` on an s32
abbrev pub decremented : ℕ → ℕ
decremented x = (x + 2 ^ 32 - 1) % 2 ^ 32

-- `ur` is UR(). Whether an extra of the user is left out by chance; no number is drawn for a
-- small dictionary.
unfoldable pub left_out : {S : Type 0} → (S → ℕ → S × ℕ) → ℕ → S → S × Bool
left_out ur extras_cnt s =
    let (s', r) = ur s extras_cnt in
    if ltb max_det_extras extras_cnt then (s', leb max_det_extras r) else (s, false)

-- There is no room, the bytes are there already, or none of them has an effect.
unfoldable pub is_useless : List ℕ → ℕ → Extra → List ℕ → Bool
is_useless eff_map i e buf =
    ltb (length buf - i) (len_of e)
    || same_bytes (bytes_at i (len_of e) buf) e.bytes
    || not (has_flag eff_map (eff_apos i) (eff_span_alen i (len_of e)))

module _ {S : Type 0} (fuzz_stuff : S → List ℕ → S × Bool) where
  -- The body of the loop over the extras; `chance` is left_out, or nothing for the automatic ones.
  unfoldable pub over_extra : (S → S × Bool) → List ℕ → ℕ → Extra → Over S → Outcome S (Over S)
  over_extra chance eff_map i e o =
      let (s, out) = chance o.stage.world in
      elim (out || is_useless eff_map i e o.stage.out_buf) [
        | true ↦
            going (record o {
              stage = record (o.stage) { world = s; stage_max = o.stage.stage_max - 1 };
            })
        | false ↦ do
          t ←
              run_target fuzz_stuff
                (record (o.stage) { world = s; out_buf = put i e.bytes o.stage.out_buf })
          going (record { stage = record t { stage_cur = t.stage_cur + 1 }; last_len = len_of e })
      ]

  unfoldable pub over_extras :
      (S → S × Bool) → List ℕ → ℕ → List Extra → Over S → Outcome S (Over S)
  over_extras chance eff_map i [] o = going o
  over_extras chance eff_map i (e ∷ es) o = do
    o' ← over_extra chance eff_map i e o
    over_extras chance eff_map i es o'

  -- The loop over the offsets; the clobbered memory is copied back from `in_buf`.
  unfoldable pub over_offsets :
      (S → S × Bool) → List ℕ → List Extra → List ℕ → ℕ → ℕ → Stage S → Outcome S (Stage S)
  over_offsets chance eff_map extras in_buf zero i t = going t
  over_offsets chance eff_map extras in_buf (suc left) i t = do
    o ← over_extras chance eff_map i extras (record { stage = t; last_len = 0 })
    over_offsets chance eff_map extras in_buf left (i + 1)
        (record (o.stage) { out_buf = put i (bytes_at i o.last_len in_buf) o.stage.out_buf })

  -- user extras (over)
  unfoldable pub user_over :
      (S → ℕ → S × ℕ) → List ℕ → List Extra → List ℕ → S → Outcome S (Stage S)
  user_over ur eff_map extras buf s =
      over_offsets (left_out ur (length extras)) eff_map extras buf (length buf) 0
        (record { out_buf = buf; world = s; stage_cur = 0; stage_max = length extras * length buf })

  -- auto extras (over): the first USE_AUTO_EXTRAS
  unfoldable pub auto_over : List ℕ → List Extra → List ℕ → S → Outcome S (Stage S)
  auto_over eff_map a_extras buf s =
      let used = take use_auto_extras a_extras in
      over_offsets (λ w. (w, false)) eff_map used buf (length buf) 0
        (record { out_buf = buf; world = s; stage_cur = 0; stage_max = length used * length buf })

  -- `ex_tmp` is `head`, the token and `tail`; a file that gets too large is not tried.
  unfoldable pub insert_extra : List ℕ → List ℕ → Extra → Stage S → Outcome S (Stage S)
  insert_extra head tail e t = elim (ltb max_file (length t.out_buf + len_of e)) [
    | true ↦ going (record t { stage_max = decremented t.stage_max })
    | false ↦
        let (s, bail) = fuzz_stuff t.world (head ++ (e.bytes ++ tail)) in
        elim bail [
          | true ↦ abandoned s
          | false ↦ going (record t { world = s; stage_cur = t.stage_cur + 1 })
        ]
  ]

  unfoldable pub insert_extras : List ℕ → List ℕ → List Extra → Stage S → Outcome S (Stage S)
  insert_extras head tail [] t = going t
  insert_extras head tail (e ∷ es) t = do
    t' ← insert_extra head tail e t
    insert_extras head tail es t'

  -- `for (i = 0; i <= len; i++)`: `tail` is what follows the offset.
  unfoldable pub insert_offsets : List Extra → List ℕ → List ℕ → Stage S → Outcome S (Stage S)
  insert_offsets extras head [] t = insert_extras head [] extras t
  insert_offsets extras head (x ∷ tail) t = do
    t' ← insert_extras head (x ∷ tail) extras t
    insert_offsets extras (head ++ (x ∷ [])) tail t'

  -- user extras (insert)
  unfoldable pub user_insert : List Extra → List ℕ → S → Outcome S (Stage S)
  user_insert extras buf s =
      insert_offsets extras [] buf
        (record { out_buf = buf; world = s; stage_cur = 0; stage_max = length extras * length buf })
