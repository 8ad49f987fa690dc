-- ===== src/Stages/Tries.antt =====
-- How the deterministic stages of fuzz_one() in fuzzer/afl-fuzz.c try a value: they write it into
-- `out_buf`, call common_fuzz_stuff(), leave by `goto abandon_entry` if that returns nonzero, and
-- count. What common_fuzz_stuff() works on is the parameter `S`, what it does is `fuzz_stuff`.
pub mod Restore
use nfuzzer.Base.{
  ℕ, zero, suc, ◌+◌, ◌-◌, ◌*◌, ◌≤◌, ◌<◌, ◌≡◌, refl, ap, ◌∙◌, arith, Bool, true, false, ◌&&◌, ◌==◌,
  List, [], ◌∷◌, length, get_or, if◌then◌else◌, ◌/◌,
}
use nfuzzer.Base.Bytes.{All, load, store}
use nfuzzer.Stages.Words.{put, bytes_at}

-- `out_buf`, the rest of the world, `stage_cur` and `stage_max`.
pub record Stage (S : Type 0) : Type 0 where
  pub out_buf : List ℕ
  pub world : S
  pub stage_cur : ℕ
  pub stage_max : ℕ

-- A stage goes on, or the entry is abandoned.
pub data Outcome (S A : Type 0) : Type 0 where
  going : A → Outcome S A
  abandoned : S → Outcome S A

infixl 5 ◌>>=◌
abbrev pub ◌>>=◌ : {S A B : Type 0} → Outcome S A → (A → Outcome S B) → Outcome S B
going a >>= f = f a
abandoned s >>= f = abandoned s

-- What holds of the outcome if the stage goes on.
abbrev pub Going : {S A : Type 0} → (A → Type 0) → Outcome S A → Type 0
Going P (going a) = P a
Going P (abandoned s) = Unit

pub >>=-Going :
    {S A B : Type 0} (P : A → Type 0) (Q : B → Type 0) (o : Outcome S A) (f : A → Outcome S B)
    → Going P o
    → ((a : A) → P a → Going Q (f a))
    → Going Q (o >>= f)
>>=-Going P Q (going a) f h k = k a h
>>=-Going P Q (abandoned s) f h k = tt

pub branch-Going :
    {S A : Type 0} (P : A → Type 0) (b : Bool) (x y : Outcome S A)
    → (b ≡ true → Going P x)
    → (b ≡ false → Going P y)
    → Going P (elim b [ true ↦ x | false ↦ y ])
branch-Going P true x y p q = p refl
branch-Going P false x y p q = q refl

-- A value that a stage may try: whether it is skipped as one that was tried before, and its bytes.
pub record Candidate : Type 0 where
  pub skipped : Bool
  pub bytes : List ℕ

-- EFF_APOS
abbrev pub eff_apos : ℕ → ℕ
eff_apos p = p / 8

-- `!eff_map[EFF_APOS(i)] && … && !eff_map[EFF_APOS(i + n - 1)]`
unfoldable pub is_idle : List ℕ → ℕ → ℕ → Bool
is_idle eff_map i zero = true
is_idle eff_map i (suc n) = get_or eff_map (eff_apos i) 0 == 0 && is_idle eff_map (i + 1) n

module _ {S : Type 0} (fuzz_stuff : S → List ℕ → S × Bool) where
  -- `if (common_fuzz_stuff(argv, out_buf, len)) goto abandon_entry;`
  unfoldable pub run_target : Stage S → Outcome S (Stage S)
  run_target t =
      let (s, bail) = fuzz_stuff t.world t.out_buf in
      elim bail [ true ↦ abandoned s | false ↦ going (record t { world = s }) ]

  unfoldable pub try_value : ℕ → Candidate → Stage S → Outcome S (Stage S)
  try_value i c t = elim c.skipped [
    | true ↦ going (record t { stage_max = t.stage_max - 1 })
    | false ↦ do
      t' ← run_target (record t { out_buf = put i c.bytes t.out_buf })
      going (record t' { stage_cur = t'.stage_cur + 1 })
  ]

  -- The candidates between two moments at which the old bytes are put back.
  unfoldable pub try_round : ℕ → List Candidate → Stage S → Outcome S (Stage S)
  try_round i [] t = going t
  try_round i (c ∷ cs) t = do t' ← try_value i c t; try_round i cs t'

  -- The rounds at an offset; `orig` is the word of `n` bytes that was there.
  unfoldable pub try_rounds : (i n orig : ℕ) → List (List Candidate) → Stage S → Outcome S (Stage S)
  try_rounds i n orig [] t = going t
  try_rounds i n orig (r ∷ rs) t = do
    t' ← try_round i r t
    try_rounds i n orig rs (record t' { out_buf = put i (store n orig) t'.out_buf })

  -- One offset of a stage that works on `n` bytes: nothing is tried where the effector map has no
  -- byte set, and `cost` is taken from `stage_max`.
  unfoldable pub try_offset :
      (eff_map : List ℕ) (n cost : ℕ) (rounds : ℕ → List (List Candidate)) (i : ℕ)
      → Stage S
      → Outcome S (Stage S)
  try_offset eff_map n cost rounds i t =
      let orig = load (bytes_at i n t.out_buf) in
      elim (is_idle eff_map i n) [
        | true ↦ going (record t { stage_max = t.stage_max - cost })
        | false ↦ try_rounds i n orig (rounds orig) t
      ]

  -- The loop over the offsets, `left` of them from `i` on.
  unfoldable pub try_offsets :
      (eff_map : List ℕ) (n cost : ℕ) (rounds : ℕ → List (List Candidate)) (left i : ℕ)
      → Stage S
      → Outcome S (Stage S)
  try_offsets eff_map n cost rounds zero i t = going t
  try_offsets eff_map n cost rounds (suc left) i t = do
    t' ← try_offset eff_map n cost rounds i t
    try_offsets eff_map n cost rounds left (i + 1) t'

  -- A whole stage over a buffer of `len` bytes, which has len - n + 1 offsets.
  unfoldable pub try_stage :
      (eff_map : List ℕ) (n cost : ℕ) (rounds : ℕ → List (List Candidate))
      → List ℕ
      → S
      → Outcome S (Stage S)
  try_stage eff_map n cost rounds buf s =
      let offsets = length buf + 1 - n in
      try_offsets eff_map n cost rounds offsets 0
        (record { out_buf = buf; world = s; stage_cur = 0; stage_max = cost * offsets })
