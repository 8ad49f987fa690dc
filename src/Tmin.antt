-- ===== src/Tmin.antt =====
-- The minimizer fuzzer/afl-tmin.c: what run_target() makes of a run, and minimize(). The run itself
-- (fork, shared memory, timer) is a parameter that may answer differently each time. `in_data` with
-- `in_len` is a list, and so is `tmp_buf`. The counters of the summary are left out.
pub mod Verdict
pub mod Weights
pub mod Kept
pub mod Main
mod Tests
use nfuzzer.Base.{
  ℕ, zero, suc, ◌+◌, ◌-◌, ◌*◌, ◌/◌, Bool, true, false, not, ltb, ◌&&◌, ◌||◌, ◌==◌, if◌then◌else◌,
  min, max, List, [], ◌∷◌, ◌++◌, map, length, get_or, set, take, drop, replicate, Option, none,
  some,
}
use nfuzzer.Havoc.Blocks.{next_p2}
use nfuzzer.Stages.Words.{put, bytes_at}
use nfuzzer.Stages.Extras.{same_bytes}
use nfuzzer.Trim.{trim_start_steps}
use nfuzzer.Tmin.Verdict.{Observed, Mode, cannot_execute, verdict}

-- TMIN_SET_MIN_SIZE, TMIN_SET_STEPS
abbrev pub tmin_set_min_size : ℕ
tmin_set_min_size = 4

abbrev pub tmin_set_steps : ℕ
tmin_set_steps = 128

-- `'0'`
abbrev pub filler : ℕ
filler = b'0'

-- `in_data`, `changed_any`, and the rest of the world.
pub record Minimizing (G : Type 0) : Type 0 where
  pub world : G
  pub in_data : List ℕ
  pub changed_any : Bool

-- The minimizer goes on; or the user has stopped it and it has written `in_data`; or the target could
-- not be executed and FATAL() has ended it. `unfinished` is when fuel is used up.
pub data Progress (G : Type 0) : Type 0 where
  going : Minimizing G → Progress G
  written : Minimizing G → Progress G
  aborted : Progress G
  unfinished : Progress G

infixl 5 ◌>>=◌
unfoldable pub ◌>>=◌ : {G : Type 0} → Progress G → (Minimizing G → Progress G) → Progress G
going t >>= f = f t
written t >>= f = written t
aborted >>= f = aborted
unfinished >>= f = unfinished

-- What run_target() makes of a candidate.
pub data Attempt (G : Type 0) : Type 0 where
  accepted : Minimizing G → Attempt G
  rejected : Minimizing G → Attempt G
  stopped : Minimizing G → Attempt G
  not_executed : Attempt G

unfoldable pub is_filler : List ℕ → Bool
is_filler [] = true
is_filler (x ∷ xs) = x == filler && is_filler xs

unfoldable pub occurrences : ℕ → List ℕ → ℕ
occurrences i [] = 0
occurrences i (x ∷ xs) = if x == i then suc (occurrences i xs) else occurrences i xs

unfoldable pub replace_symbol : ℕ → List ℕ → List ℕ
replace_symbol i [] = []
replace_symbol i (x ∷ xs) = (if x == i then filler else x) ∷ replace_symbol i xs

module _ {G : Type 0} (execute : G → List ℕ → G × Observed) (mode : Mode) where
  -- run_target() on `tmp_buf`; if it returns 1 the candidate becomes `in_data`.
  unfoldable pub attempt : List ℕ → Minimizing G → Attempt G
  attempt tmp_buf t =
      let (g, seen) = execute t.world tmp_buf in
      if cannot_execute seen.trace_bits
      then not_executed
      else (if seen.stop_soon
          then stopped (record t { world = g })
          else (if verdict mode seen
              then accepted (record t { world = g; in_data = tmp_buf; changed_any = true })
              else rejected (record t { world = g })))

  -- Block normalization, from `set_pos` on.
  unfoldable pub normalize_block : (set_pos use_len : ℕ) → Minimizing G → Progress G
  normalize_block set_pos use_len t = elim (is_filler (bytes_at set_pos use_len t.in_data)) [
    | true ↦ going t
    | false ↦ elim (attempt (put set_pos (replicate use_len filler) t.in_data) t) [
      | accepted t' ↦ going t'
      | rejected t' ↦ going t'
      | stopped t' ↦ written t'
      | not_executed ↦ aborted
    ]
  ]

  unfoldable pub normalize_blocks : (fuel set_len set_pos : ℕ) → Minimizing G → Progress G
  normalize_blocks zero set_len set_pos t = unfinished
  normalize_blocks (suc fuel) set_len set_pos t = elim (ltb set_pos (length t.in_data)) [
    | false ↦ going t
    | true ↦ do
      t' ← normalize_block set_pos (min set_len (length t.in_data - set_pos)) t
      normalize_blocks fuel set_len (set_pos + set_len) t'
  ]

  -- The block at `del_pos` is the one before it, which could not be deleted.
  unfoldable pub is_repeated : (del_len del_pos : ℕ) (prev_del : Bool) → List ℕ → Bool
  is_repeated del_len del_pos prev_del in_data =
      not prev_del
      && ltb 0 (length in_data - del_pos - del_len)
      && same_bytes (bytes_at (del_pos - del_len) del_len in_data)
          (bytes_at del_pos del_len in_data)

  -- Block deletion for one block length.
  unfoldable pub delete_blocks :
      (fuel del_len del_pos : ℕ) (prev_del : Bool) → Minimizing G → Progress G
  delete_blocks zero del_len del_pos prev_del t = unfinished
  delete_blocks (suc fuel) del_len del_pos prev_del t = elim (ltb del_pos (length t.in_data)) [
    | false ↦ going t
    | true ↦ elim (is_repeated del_len del_pos prev_del t.in_data) [
      | true ↦ delete_blocks fuel del_len (del_pos + del_len) prev_del t
      | false ↦ elim (attempt (take del_pos t.in_data ++ drop (del_pos + del_len) t.in_data) t) [
        | accepted t' ↦ delete_blocks fuel del_len del_pos true t'
        | rejected t' ↦ delete_blocks fuel del_len (del_pos + del_len) false t'
        | stopped t' ↦ written t'
        | not_executed ↦ aborted
      ]
    ]
  ]

  -- next_del_blksize: the length is halved, down to 1.
  unfoldable pub delete_sizes : (fuel del_len : ℕ) → Minimizing G → Progress G
  delete_sizes zero del_len t = unfinished
  delete_sizes (suc fuel) del_len t = do
    let size = if del_len == 0 then 1 else del_len
    t' ← delete_blocks (length t.in_data + 1) size 0 true t
    elim (ltb 1 size && ltb 0 (length t'.in_data)) [
      | true ↦ delete_sizes fuel (size / 2) t'
      | false ↦ going t'
    ]

  -- Alphabet minimization: `left` symbols from `i` on; `counted` is what `alpha_map` counts.
  unfoldable pub minimize_symbols : (left i : ℕ) → List ℕ → Minimizing G → Progress G
  minimize_symbols zero i counted t = going t
  minimize_symbols (suc left) i counted t = elim (i == filler || occurrences i counted == 0) [
    | true ↦ minimize_symbols left (i + 1) counted t
    | false ↦ elim (attempt (replace_symbol i t.in_data) t) [
      | accepted t' ↦ minimize_symbols left (i + 1) counted t'
      | rejected t' ↦ minimize_symbols left (i + 1) counted t'
      | stopped t' ↦ written t'
      | not_executed ↦ aborted
    ]
  ]

  -- Character minimization: `left` bytes from `i` on of `tmp_buf`.
  unfoldable pub minimize_characters : (left i : ℕ) → List ℕ → Minimizing G → Progress G
  minimize_characters zero i tmp_buf t = going t
  minimize_characters (suc left) i tmp_buf t =
      let orig = get_or tmp_buf i 0 in
      let tried = set tmp_buf i filler in
      elim (orig == filler) [
        | true ↦ minimize_characters left (i + 1) tmp_buf t
        | false ↦ elim (attempt tried t) [
          | accepted t' ↦
              minimize_characters left (i + 1) tried
                (record t' { in_data = set t.in_data i filler })
          | rejected t' ↦ minimize_characters left (i + 1) (set tried i orig) t'
          | stopped t' ↦ written t'
          | not_executed ↦ aborted
        ]
      ]

  unfoldable pub delete_all : Minimizing G → Progress G
  delete_all t = elim (next_p2 (length t.in_data / trim_start_steps)) [
    | none ↦ unfinished
    | some del_len ↦ delete_sizes (del_len + 2) del_len t
  ]

  -- next_pass
  unfoldable pub passes : (fuel cur_pass : ℕ) → Minimizing G → Progress G
  passes zero cur_pass t = unfinished
  passes (suc fuel) cur_pass t = do
    deleted ← delete_all (record t { changed_any = false })
    elim (ltb 1 cur_pass && not deleted.changed_any) [
      | true ↦ going deleted
      | false ↦ do
        fewer ← minimize_symbols 256 0 deleted.in_data deleted
        t' ← minimize_characters (length fewer.in_data) 0 fewer.in_data fewer
        elim t'.changed_any [ true ↦ passes fuel (cur_pass + 1) t' | false ↦ going t' ]
    ]

  -- A pass that goes on to the next has made the file shorter or turned a byte into '0'; twice the
  -- length is more passes than that.
  unfoldable pub minimize : List ℕ → G → Progress G
  minimize in_data g = elim (next_p2 (length in_data / tmin_set_steps)) [
    | none ↦ unfinished
    | some p ↦ do
      let start : Minimizing G = record { world = g; in_data = in_data; changed_any = false }
      t ← normalize_blocks (length in_data + 1) (max p tmin_set_min_size) 0 start
      passes (2 * length in_data + 2) 1 t
  ]
