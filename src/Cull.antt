-- ===== src/Cull.antt =====
-- `cull_queue` of fuzzer/afl-fuzz.c, with `mark_as_redundant`: picks winners of slots until every
-- slot is covered, and marks them as favored.
pub mod Clear
pub mod Marks
pub mod Cover
use nfuzzer.Base.{
  ℕ, zero, suc, ◌+◌, ◌-◌, ◌/◌, ◌%◌, ◌^◌, ◌==◌, if◌then◌else◌, bit_and, Bool, true, false, not, ◌||◌,
  Option, none, some, List, [], ◌∷◌, get_or, set, replicate,
}
use nfuzzer.Config.{map_size}
use nfuzzer.Score.{Entry, Scores, update}

-- What the routine works on: the globals, `temp_v`, and which entries have a file under
-- `.state/redundant_edges`.
pub record Culling : Type 0 where
  pub scores : Scores
  pub temp_v : List ℕ
  pub redundant_file : ℕ → Bool

-- `if (mini[j]) temp_v[j] &= ~mini[j];`
pub clear_step : ℕ → List ℕ → List ℕ → List ℕ
clear_step j mini temp_v =
    if get_or mini j 0 == 0
    then temp_v
    else set temp_v j (bit_and (get_or temp_v j 0) (255 - get_or mini j 0))

-- `while (j--) …`
pub clear_mini : ℕ → List ℕ → List ℕ → List ℕ
clear_mini zero mini temp_v = temp_v
clear_mini (suc j) mini temp_v = clear_mini j mini (clear_step j mini temp_v)

-- `top_rated[i]->favored = 1` and the two counters
pub favor : ℕ → Scores → Scores
favor w s = record s {
  entry = update s.entry w (record (s.entry w) { favored = true });
  queued_favored = (s.queued_favored + 1) % 2 ^ 32;
  pending_favored =
      if (s.entry w).was_fuzzed then s.pending_favored else (s.pending_favored + 1) % 2 ^ 32;
}

-- A winner at a slot whose bit is still set in `temp_v`. A null `trace_mini` is read through, which
-- is a fault: `none`.
pub pick : ℕ → ℕ → Culling → Option (List ℕ) → Option Culling
pick pow2 w c none = none
pick pow2 w c (some mini) =
    some (record c {
      scores = favor w c.scores;
      temp_v = clear_mini (map_size pow2 / 8) mini c.temp_v;
    })

-- The body of the loop over the map, by the slot's holder.
pub cull_slot : ℕ → ℕ → Culling → Option ℕ → Option Culling
cull_slot pow2 i c none = some c
cull_slot pow2 i c (some w) =
    if bit_and (get_or c.temp_v (i / 8) 0) (2 ^ (i % 8)) == 0
    then some c
    else pick pow2 w c (c.scores.entry w).trace_mini

pub cull_from : ℕ → ℕ → ℕ → Culling → Option Culling
cull_from pow2 zero i c = some c
cull_from pow2 (suc left) i c = elim (cull_slot pow2 i c (get_or c.scores.top_rated i none)) [
  | none ↦ none
  | some c' ↦ cull_from pow2 left (i + 1) c'
]

-- `while (q) { q->favored = 0; q = q->next; }`
pub unfavor_all : List ℕ → (ℕ → Entry) → ℕ → Entry
unfavor_all [] entry = entry
unfavor_all (q ∷ queue) entry =
    unfavor_all queue (update entry q (record (entry q) { favored = false }))

-- `mark_as_redundant`: nothing if the mark is as wanted, else the mark is set and its file is made
-- or removed. A file that is there already, or is missing, is fatal: `none`.
pub mark_as_redundant : ℕ → Bool → Culling → Option Culling
mark_as_redundant q true c =
    if (c.scores.entry q).fs_redundant
    then some c
    else if c.redundant_file q
    then none
    else some (record c {
      scores = record (c.scores) {
        entry = update c.scores.entry q (record (c.scores.entry q) { fs_redundant = true });
      };
      redundant_file = update c.redundant_file q true;
    })
mark_as_redundant q false c =
    if not (c.scores.entry q).fs_redundant
    then some c
    else if not (c.redundant_file q)
    then none
    else some (record c {
      scores = record (c.scores) {
        entry = update c.scores.entry q (record (c.scores.entry q) { fs_redundant = false });
      };
      redundant_file = update c.redundant_file q false;
    })

-- `while (q) { mark_as_redundant(q, !q->favored); q = q->next; }`
pub mark_all : List ℕ → Culling → Option Culling
mark_all [] c = some c
mark_all (q ∷ queue) c = elim (mark_as_redundant q (not (c.scores.entry q).favored) c) [
  | none ↦ none
  | some c' ↦ mark_all queue c'
]

-- The state when the loop over the map starts.
pub start_cull : ℕ → Culling → Culling
start_cull pow2 c = record c {
  scores = record (c.scores) {
    entry = unfavor_all c.scores.queue c.scores.entry;
    score_changed = false;
    queued_favored = 0;
    pending_favored = 0;
  };
  temp_v = replicate (map_size pow2 / 8) 255;
}

pub cull_queue : ℕ → Bool → Culling → Option Culling
cull_queue pow2 dumb_mode c =
    if dumb_mode || not c.scores.score_changed
    then some c
    else elim (cull_from pow2 (map_size pow2) 0 (start_cull pow2 c)) [
      | none ↦ none
      | some c' ↦ mark_all c'.scores.queue c'
    ]
