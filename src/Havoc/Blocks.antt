-- ===== src/Havoc/Blocks.antt =====
-- Block lengths: UR, choose_block_len and next_p2 of fuzzer/afl-fuzz.c.
use native.Mathlib.Nat.{pow-suc}
use nfuzzer.Base.{
  ◌∙◌, dec_lt, ◌&&◌, ap, ℕ, zero, suc, ◌+◌, ◌-◌, ◌*◌, ◌%◌, ◌^◌, ◌≤◌, ◌<◌, min, ◌≡◌, ◌⊎◌, inl, inr,
  refl, arith, Bool, true, false, if◌then◌else◌, ltb, leb, ◌==◌, Option, none, some,
}

-- HAVOC_BLK_SMALL, HAVOC_BLK_MEDIUM, HAVOC_BLK_LARGE, HAVOC_BLK_XL
abbrev pub blk_small : ℕ
blk_small = 32

abbrev pub blk_medium : ℕ
blk_medium = 128

abbrev pub blk_large : ℕ
blk_large = 1500

abbrev pub blk_xl : ℕ
blk_xl = 32768

-- UR, given what `random()` returns.
abbrev pub ur : ℕ → ℕ → ℕ
ur random limit = random % limit

-- `min_value` and `max_value`
pub record Range : Type 0 where
  pub min_value : ℕ
  pub max_value : ℕ

-- The switch, with the second draw.
unfoldable pub block_range : ℕ → ℕ → Range
block_range zero second = record { min_value = 1; max_value = blk_small }
block_range (suc zero) second = record { min_value = blk_small; max_value = blk_medium }
block_range (suc (suc n)) second =
    if ur second 10 == 0
    then record { min_value = blk_large; max_value = blk_xl }
    else record { min_value = blk_medium; max_value = blk_large }

-- The last lines: a range that starts at the limit or above starts at 1 instead.
unfoldable pub draw_block : ℕ → ℕ → Range → ℕ
draw_block limit third r =
    let low = if leb limit r.min_value then 1 else r.min_value in
    low + ur third (min r.max_value limit - low + 1)

-- `first`, `second` and `third` are what `random()` returns at each call; `second` is drawn in the
-- third case only.
unfoldable pub choose_block_len : ℕ → Bool → ℕ → ℕ → ℕ → ℕ → ℕ
choose_block_len queue_cycle run_over10m limit first second third =
    let rlim = if run_over10m then min queue_cycle 3 else 1 in
    draw_block limit third (block_range (ur first rlim) second)

-- The loop of next_p2 with fuel: `none` when the fuel is used up. `ret` is a 32-bit word.
unfoldable pub next_p2_loop : ℕ → ℕ → ℕ → Option ℕ
next_p2_loop zero val ret = none
next_p2_loop (suc fuel) val ret =
    let rest = next_p2_loop fuel val (ret * 2 % 2 ^ 32) in if ltb ret val then rest else some ret

-- 33 rounds are enough for the values it is meant for, as `next_p2_lem` shows.
unfoldable pub next_p2 : ℕ → Option ℕ
next_p2 val = next_p2_loop 33 val 1

block_range-bounds :
    (n second : ℕ)
    → (1 ≤ (block_range n second).min_value)
      × ((block_range n second).min_value ≤ (block_range n second).max_value)
      × ((block_range n second).max_value ≤ blk_xl)
unfolding block_range
block_range-bounds zero second = ground arith
block_range-bounds (suc zero) second = ground arith
block_range-bounds (suc (suc n)) second = ground arith

draw_block-bounds :
    (limit third : ℕ) (r : Range)
    → 0 < limit
    → 1 ≤ r.min_value
    → r.min_value ≤ r.max_value
    → (1 ≤ draw_block limit third r) × (draw_block limit third r ≤ min limit r.max_value)
unfolding draw_block
draw_block-bounds limit third r h low order = ground arith

first_range : (n second : ℕ) → n ≡ 0 → (block_range n second).max_value ≡ blk_small
unfolding block_range
first_range zero second e = refl
first_range (suc n) second e = absurd (omega arith)

-- For a limit above 0 and a queue cycle above 0 the length is at least 1 and at most the limit, whatever the random numbers
-- are; it is also at most HAVOC_BLK_XL, and at most HAVOC_BLK_SMALL in the first ten minutes and in
-- the first cycle of the queue.
pub choose_block_len-bounds :
    (queue_cycle : ℕ) (run_over10m : Bool) (limit first second third : ℕ)
    → 0 < limit
    → 0 < queue_cycle
    → (1 ≤ choose_block_len queue_cycle run_over10m limit first second third)
      × (choose_block_len queue_cycle run_over10m limit first second third
          ≤ min limit (if run_over10m && ltb 1 queue_cycle then blk_xl else blk_small))
unfolding choose_block_len
choose_block_len-bounds queue_cycle false limit first second third h started =
    let n = ur first 1 in
    let b = block_range-bounds n second in
    let d = draw_block-bounds limit third (block_range n second) h b.0 b.1 in
    ground (arith, d, first_range n second (omega arith))
choose_block_len-bounds queue_cycle true limit first second third h started =
    let n = ur first (min queue_cycle 3) in
    let b = block_range-bounds n second in
    let d = draw_block-bounds limit third (block_range n second) h b.0 b.1 in
    elim (dec_lt 1 queue_cycle) [
      | yes later ↦ ground (arith, d, b)
      | no now ↦
          let one : min queue_cycle 3 ≡ 1 = omega arith in
          let zero_drawn : n ≡ 0 = ap (λ (t : ℕ). first % t) one ∙ omega arith in
          ground (arith, d, first_range n second zero_drawn)
    ]

next_p2_loop_lem :
    (fuel k val : ℕ)
    → fuel + k ≡ 33
    → val ≤ 2 ^ 31
    → 2 ^ k < 2 * val ⊎ k ≡ 0
    → (j : ℕ) × (next_p2_loop fuel val (2 ^ k) ≡ some (2 ^ j))
      × (val ≤ 2 ^ j)
      × (2 ^ j < 2 * val ⊎ j ≡ 0)
unfolding next_p2_loop
next_p2_loop_lem zero k val e h near =
    let all : k ≡ 33 = omega arith in
    elim near [
      | inl p ↦ absurd (omega (arith, ap (λ (t : ℕ). 2 ^ t) all))
      | inr z ↦ absurd (omega arith)
    ]
next_p2_loop_lem (suc fuel) k val e h near = elim (dec_lt (2 ^ k) val) [
  | yes below ↦
      let twice : 2 ^ k * 2 % 2 ^ 32 ≡ 2 ^ suc k = omega (arith, pow-suc 2 k) in
      let rest =
        next_p2_loop_lem fuel (suc k) val (omega arith) h (inl (omega (arith, pow-suc 2 k))) in
      let step : next_p2_loop (suc fuel) val (2 ^ k) ≡ some (2 ^ rest.0) =
        ground (arith, rest.1, ap (next_p2_loop fuel val) twice) in
      (rest.0, step, rest.2, rest.3)
  | no above ↦ (k, ground arith, omega arith, near)
]

-- For every value up to 2 ^ 31 the loop ends within its 33 rounds with a power of 2 that is at
-- least the value and, unless it is 1, less than twice the value.
pub next_p2_lem :
    (val : ℕ)
    → val ≤ 2 ^ 31
    → (k : ℕ) × (next_p2 val ≡ some (2 ^ k)) × (val ≤ 2 ^ k) × (2 ^ k < 2 * val ⊎ k ≡ 0)
unfolding next_p2
next_p2_lem val h = next_p2_loop_lem 33 0 val refl h (inr refl)
