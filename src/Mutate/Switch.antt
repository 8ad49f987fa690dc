-- ===== src/Mutate/Switch.antt =====
-- The switch of the havoc stage of fuzz_one() in fuzzer/afl-fuzz.c, and the loop that stacks its
-- tweaks. higher_order_fuzzing() on an entry with a chunk tree ends the process: its choice is
-- overwritten by `r = 1`, and that case runs into the code that shuts the fuzzer down. What its call of
-- splice_chunk() does before is left out.
use nfuzzer.Base.{
  ℕ, zero, suc, ◌+◌, ◌-◌, ◌*◌, ◌/◌, ◌%◌, ◌^◌, Bool, true, false, not, ltb, leb, ◌&&◌, ◌||◌, ◌==◌,
  List, [], ◌∷◌, ◌++◌, length, if◌then◌else◌,
}
use nfuzzer.Havoc.Blocks.{blk_xl}
use nfuzzer.Stages.Extras.{Extra, len_of, max_file}
use nfuzzer.Mutate.Draw.{Source, Draw, give, ◌>>=◌, draw}
use nfuzzer.Mutate.Memory.{write, index}
use nfuzzer.Mutate.Tweaks.{
  flip_random_bit, interesting_byte, interesting_word16, interesting_word32, subtract_from_byte,
  add_to_byte, subtract_from_word, add_to_word, subtract_from_dword, add_to_dword, random_byte,
  delete_block, insert_block, overwrite_block, splice_in,
}
pub mod Bounds

-- What the stage is run with; `splicing` is `splice_cycle != 0`, and `has_chunk` whether the entry
-- has a chunk tree.
pub record Setting : Type 0 where
  pub smart_mode : Bool
  pub stacking_mutation_mode : Bool
  pub splicing : Bool
  pub has_chunk : Bool
  pub smart_mutation_limit : ℕ
  pub extras : List Extra
  pub a_extras : List Extra

-- `out_buf` up to `temp_len`, and `changed_size`.
pub record Tweaked : Type 0 where
  pub out_buf : List ℕ
  pub changed_size : Bool

-- The process goes on, or it has called exit().
pub data Next (A : Type 0) : Type 0 where
  on : A → Next A
  exited : Next A

abbrev pub is_empty {ℓ} : {A : Type ℓ} → List A → Bool
is_empty [] = true
is_empty (x ∷ xs) = false

-- HAVOC_STACK_POW2
abbrev pub havoc_stack_pow2 : ℕ
havoc_stack_pow2 = 7

-- A tweak that keeps the size, and one that changes it.
abbrev pub resized : {G : Type 0} → Bool → Tweaked → Draw G (List ℕ) → Draw G (Next Tweaked)
resized changed t m = do
  b ← m
  give (on (record { out_buf = b; changed_size = t.changed_size || changed }))

-- higher_order_fuzzing() under its guard. `higher_order_changed_size` is 0 here, as no call returns.
unfoldable pub higher_order : {G : Type 0} → Setting → Tweaked → Draw G (Next Tweaked)
higher_order s t =
    if s.smart_mutation_limit == 0 || ltb 0 s.smart_mutation_limit then give exited else give (on t)

module _ {G : Type 0} (src : Source G) (s : Setting) where
  -- `!extras_cnt || (a_extras_cnt && UR(2))`
  unfoldable pub prefer_auto : Draw G Bool
  prefer_auto = elim (is_empty s.extras) [
    | true ↦ give true
    | false ↦ elim (is_empty s.a_extras) [
      | true ↦ give false
      | false ↦ do coin ← draw src 2; give (not (coin == 0))
    ]
  ]

  -- A token of the list, drawn at random.
  unfoldable pub draw_extra : List Extra → Draw G Extra
  draw_extra tokens = do use_extra ← draw src (length tokens); index tokens use_extra

  unfoldable pub put_extra : List ℕ → Extra → Draw G (List ℕ)
  put_extra buf e = elim (ltb (length buf) (len_of e)) [
    | true ↦ give buf
    | false ↦ do insert_at ← draw src (length buf - len_of e + 1); write buf insert_at e.bytes
  ]

  -- first_optional_mutation: a token is written over the buffer.
  unfoldable pub overwrite_extra : List ℕ → Draw G (List ℕ)
  overwrite_extra buf = do
    auto ← prefer_auto
    let tokens = if auto then s.a_extras else s.extras
    elim (is_empty tokens) [ true ↦ give buf | false ↦ do e ← draw_extra tokens; put_extra buf e ]

  unfoldable pub grow_by_extra : Tweaked → ℕ → Extra → Draw G (Next Tweaked)
  grow_by_extra t insert_at e = elim (leb max_file (length t.out_buf + len_of e)) [
    | true ↦ give (on t)
    | false ↦ resized true t (splice_in t.out_buf insert_at e.bytes)
  ]

  -- second_optional_mutation: a token is inserted. It counts on there being a token.
  unfoldable pub insert_extra : Tweaked → Draw G (Next Tweaked)
  insert_extra t = do
    insert_at ← draw src (length t.out_buf + 1)
    auto ← prefer_auto
    e ← draw_extra (if auto then s.a_extras else s.extras)
    grow_by_extra t insert_at e

  -- The tweaks that need two bytes; `break` leaves the buffer as it is.
  unfoldable pub delete_case : Tweaked → Draw G (Next Tweaked)
  delete_case t = elim (ltb (length t.out_buf) 2) [
    | true ↦ give (on t)
    | false ↦ resized true t (delete_block src t.out_buf)
  ]

  unfoldable pub insert_case : Tweaked → Draw G (Next Tweaked)
  insert_case t = elim (ltb (length t.out_buf + blk_xl) max_file) [
    | true ↦ resized true t (insert_block src t.out_buf)
    | false ↦ give (on t)
  ]

  unfoldable pub overwrite_case : Tweaked → Draw G (Next Tweaked)
  overwrite_case t = elim (ltb (length t.out_buf) 2) [
    | true ↦ give (on t)
    | false ↦ resized false t (overwrite_block src t.out_buf)
  ]

  -- The cases 15 to 17.
  unfoldable pub optional_cases : ℕ → Tweaked → Draw G (Next Tweaked)
  optional_cases zero t =
      elim (not s.smart_mode
        || not s.stacking_mutation_mode
        || s.splicing
        || not s.has_chunk
        || t.changed_size) [
          | true ↦ resized false t (overwrite_extra t.out_buf)
          | false ↦ higher_order s t
        ]
  optional_cases (suc zero) t =
      elim (not s.smart_mode || not s.stacking_mutation_mode || t.changed_size) [
        | true ↦ insert_extra t
        | false ↦ resized false t (overwrite_extra t.out_buf)
      ]
  optional_cases (suc (suc n)) t = insert_extra t

  -- The cases 11 to 14.
  unfoldable pub block_cases : ℕ → Tweaked → Draw G (Next Tweaked)
  block_cases zero t = delete_case t
  block_cases (suc zero) t = delete_case t
  block_cases (suc (suc zero)) t = insert_case t
  block_cases (suc (suc (suc zero))) t = overwrite_case t
  block_cases (suc (suc (suc (suc n)))) t = optional_cases n t

  -- The cases 6 to 10.
  unfoldable pub word_cases : ℕ → Tweaked → Draw G (Next Tweaked)
  word_cases zero t = resized false t (subtract_from_word src t.out_buf)
  word_cases (suc zero) t = resized false t (add_to_word src t.out_buf)
  word_cases (suc (suc zero)) t = resized false t (subtract_from_dword src t.out_buf)
  word_cases (suc (suc (suc zero))) t = resized false t (add_to_dword src t.out_buf)
  word_cases (suc (suc (suc (suc zero)))) t = resized false t (random_byte src t.out_buf)
  word_cases (suc (suc (suc (suc (suc n))))) t = block_cases n t

  -- The switch.
  unfoldable pub havoc_case : ℕ → Tweaked → Draw G (Next Tweaked)
  havoc_case zero t = resized false t (flip_random_bit src t.out_buf)
  havoc_case (suc zero) t = resized false t (interesting_byte src t.out_buf)
  havoc_case (suc (suc zero)) t = resized false t (interesting_word16 src t.out_buf)
  havoc_case (suc (suc (suc zero))) t = resized false t (interesting_word32 src t.out_buf)
  havoc_case (suc (suc (suc (suc zero)))) t = resized false t (subtract_from_byte src t.out_buf)
  havoc_case (suc (suc (suc (suc (suc zero))))) t = resized false t (add_to_byte src t.out_buf)
  havoc_case (suc (suc (suc (suc (suc (suc n)))))) t = word_cases n t

  -- One round: `base_mutation_count` cases, and two more if there are tokens.
  unfoldable pub havoc_round : Tweaked → Draw G (Next Tweaked)
  havoc_round t = do
    let base = if s.smart_mode && s.stacking_mutation_mode && not t.changed_size then 16 else 15
    let tokens = if is_empty s.extras && is_empty s.a_extras then 0 else 2
    c ← draw src (base + tokens)
    havoc_case c t

  -- The loop over the stacked tweaks.
  unfoldable pub havoc_rounds : ℕ → Tweaked → Draw G (Next Tweaked)
  havoc_rounds zero t = give (on t)
  havoc_rounds (suc n) t = do
    next ← havoc_round t
    elim next [ exited ↦ give exited | on t' ↦ havoc_rounds n t' ]

  -- The tweaks of one run: `1 << (1 + UR(HAVOC_STACK_POW2))` of them. In smart mode without
  -- stacking the structure-aware mutations take their place.
  unfoldable pub mutate : List ℕ → Draw G (Next Tweaked)
  mutate buf = do
    r ← draw src havoc_stack_pow2
    let start : Tweaked = record { out_buf = buf; changed_size = false }
    elim (s.smart_mode && not s.stacking_mutation_mode && not s.splicing && s.has_chunk) [
      | true ↦ higher_order s start
      | false ↦ havoc_rounds (2 ^ (1 + r)) start
    ]
