-- ===== src/Score.antt =====
-- `update_bitmap_score` of fuzzer/afl-fuzz.c: for each byte of the map the best queue entry that
-- sets it, with reference counts on the compacted traces. A pointer to a queue entry is a number,
-- and the entries are a function from pointers.
pub mod Refs
pub mod Winners
pub mod Traces
use nfuzzer.Base.{
  ℕ, zero, suc, ◌+◌, ◌-◌, ◌*◌, ◌/◌, ◌%◌, ◌^◌, ◌==◌, ltb, if◌then◌else◌, Bool, true, false, Option,
  none, some, List, get_or, set, replicate,
}
use nfuzzer.Config.{map_size}
use nfuzzer.Bitmap.Minimize.{minimize_bits}

-- The fields of `struct queue_entry` that scoring and culling use.
pub record Entry : Type 0 where
  pub len : ℕ
  pub exec_us : ℕ
  pub was_fuzzed : Bool
  pub favored : Bool
  pub fs_redundant : Bool
  pub trace_mini : Option (List ℕ)
  pub tc_ref : ℕ

-- The globals; `queue` lists the entries in the order of their `next` links.
pub record Scores : Type 0 where
  pub entry : ℕ → Entry
  pub queue : List ℕ
  pub top_rated : List (Option ℕ)
  pub trace_bits : List ℕ
  pub score_changed : Bool
  pub queued_favored : ℕ
  pub pending_favored : ℕ

abbrev pub update {ℓ} : {A : Type ℓ} → (ℕ → A) → ℕ → A → ℕ → A
update f p a q = if q == p then a else f q

-- `q->exec_us * q->len`, a 64-bit product
abbrev pub fav_factor : Entry → ℕ
fav_factor e = e.exec_us * e.len % 2 ^ 64

-- `if (!--e->tc_ref) { ck_free(e->trace_mini); e->trace_mini = 0; }` on a 32-bit count
abbrev pub dropped : Entry → Entry
dropped e =
    let ref = (e.tc_ref + 2 ^ 32 - 1) % 2 ^ 32 in
    record e { tc_ref = ref; trace_mini = if ref == 0 then none else e.trace_mini }

pub release : ℕ → Scores → Scores
release w s = record s { entry = update s.entry w (dropped (s.entry w)) }

-- `q->tc_ref++`, and the compacted trace if there is none; `ck_alloc` clears what it returns.
abbrev pub taken : ℕ → List ℕ → Entry → Entry
taken pow2 trace e = record e {
  tc_ref = (e.tc_ref + 1) % 2 ^ 32;
  trace_mini = elim e.trace_mini [
    | none ↦ some (minimize_bits pow2 (replicate (map_size pow2 / 8) 0) trace)
    | some m ↦ some m
  ];
}

-- `top_rated[i] = q` and what follows it
pub win : ℕ → ℕ → ℕ → Scores → Scores
win pow2 q i s = record s {
  entry = update s.entry q (taken pow2 s.trace_bits (s.entry q));
  top_rated = set s.top_rated i (some q);
  score_changed = true;
}

-- A slot whose byte is set in the trace, by its present winner.
pub contest : ℕ → ℕ → ℕ → ℕ → Scores → Option ℕ → Scores
contest pow2 q factor i s none = win pow2 q i s
contest pow2 q factor i s (some w) =
    if ltb (fav_factor (s.entry w)) factor then s else win pow2 q i (release w s)

-- The body of the loop at index i.
pub score_step : ℕ → ℕ → ℕ → ℕ → Scores → Scores
score_step pow2 q factor i s =
    if get_or s.trace_bits i 0 == 0
    then s
    else contest pow2 q factor i s (get_or s.top_rated i none)

pub score_from : ℕ → ℕ → ℕ → ℕ → ℕ → Scores → Scores
score_from pow2 q factor zero i s = s
score_from pow2 q factor (suc left) i s =
    score_from pow2 q factor left (i + 1) (score_step pow2 q factor i s)

pub update_bitmap_score : ℕ → ℕ → Scores → Scores
update_bitmap_score pow2 q s = score_from pow2 q (fav_factor (s.entry q)) (map_size pow2) 0 s
