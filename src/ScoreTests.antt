-- ===== src/ScoreTests.antt =====
-- The theorems on scoring and culling at concrete inputs: two entries, and a map of 8 bytes.
use nfuzzer.Base.{
  ℕ, zero, suc, ◌<◌, ◌==◌, ltb, ◌&&◌, not, if◌then◌else◌, true, false, none, some, List, [], ◌∷◌,
  ◌≡◌, refl, arith, ◌⊎◌, inl, inr, Bool-cases, get_or,
}
use nfuzzer.Base.Bytes.{All, IsBytes}
use nfuzzer.Base.Testbit.{testbit}
use nfuzzer.Config.{map_size}
use nfuzzer.Bitmap.Minimize.Bits.{bit_at}
use nfuzzer.Score.{Entry, Scores, fav_factor, update_bitmap_score}
use nfuzzer.Score.Refs.{IsCounted, update_bitmap_score-IsCounted}
use nfuzzer.Score.Winners.{champion, update_bitmap_score_lem}
use nfuzzer.Score.Traces.{HasBit, IsScored, update_bitmap_score-IsScored}
use nfuzzer.Cull.{Culling, cull_queue}
use nfuzzer.Cull.Marks.{FilesAgree, MarkFits}
use nfuzzer.Cull.Cover.{IsReady, IsCovered, cull_queue_lem}

-- Entry 0 holds slots 0 and 2; entry 1, which is smaller, is new.
abbrev entries : ℕ → Entry
entries p =
    if p == 0
    then record {
      len = 100;
      exec_us = 7;
      was_fuzzed = false;
      favored = false;
      fs_redundant = false;
      trace_mini = some (5 ∷ []);
      tc_ref = 2;
    }
    else record {
      len = 40;
      exec_us = 9;
      was_fuzzed = false;
      favored = false;
      fs_redundant = false;
      trace_mini = none;
      tc_ref = 0;
    }

abbrev scores : Scores
scores = record {
  entry = entries;
  queue = 0 ∷ 1 ∷ [];
  top_rated = some 0 ∷ none ∷ some 0 ∷ none ∷ none ∷ none ∷ none ∷ none ∷ [];
  trace_bits = 0 ∷ 1 ∷ 4 ∷ 0 ∷ 0 ∷ 0 ∷ 0 ∷ 0 ∷ [];
  score_changed = true;
  queued_favored = 0;
  pending_favored = 0;
}

scores-IsCounted : IsCounted 3 scores.top_rated scores
scores-IsCounted = record {
  size = refl;
  counts = λ p. (ground arith, (ground arith, ground arith));
}

holders : (k w : ℕ) → get_or scores.top_rated k none ≡ some w → (w ≡ 0) × ((k ≡ 0) ⊎ (k ≡ 2))
holders zero w e = (cc, inl refl)
holders (suc zero) w e = cc
holders (suc (suc zero)) w e = (cc, inr refl)
holders (suc (suc (suc zero))) w e = cc
holders (suc (suc (suc (suc zero)))) w e = cc
holders (suc (suc (suc (suc (suc zero))))) w e = cc
holders (suc (suc (suc (suc (suc (suc zero)))))) w e = cc
holders (suc (suc (suc (suc (suc (suc (suc zero))))))) w e = cc
holders (suc (suc (suc (suc (suc (suc (suc (suc k)))))))) w e = cc

-- Bits 0 and 2 are set in entry 0's compacted trace.
bit_of : (k : ℕ) → (k ≡ 0) ⊎ (k ≡ 2) → bit_at (5 ∷ []) k ≡ 1
unfolding testbit
bit_of k (inl e) = rw e
bit_of k (inr e) = rw e

scores-traced : (k w : ℕ) → get_or scores.top_rated k none ≡ some w → HasBit k (scores.entry w)
scores-traced k w e m f =
    let is_five : (5 ∷ []) ≡ m = ground (arith, (holders k w e).0) in
    rw (← is_five) (bit_of k (holders k w e).1)

scores-IsScored : IsScored 3 1 scores.top_rated scores
scores-IsScored = record {
  counted = scores-IsCounted;
  traced = scores-traced;
  agrees = λ k lt hit m e. cc;
}

update_bitmap_score-IsCounted_example :
    let s' = update_bitmap_score 3 1 scores in IsCounted 3 s'.top_rated s'
update_bitmap_score-IsCounted_example =
    update_bitmap_score-IsCounted 3 1 scores (omega arith) scores-IsCounted

update_bitmap_score_lem_example :
    let s' = update_bitmap_score 3 1 scores in
    ((k : ℕ)
      → get_or s'.top_rated k none ≡ (
          if ltb k (map_size 3) && not (get_or scores.trace_bits k 0 == 0)
          then champion entries 1 (fav_factor (entries 1)) (get_or scores.top_rated k none)
          else get_or scores.top_rated k none))
    × ((p : ℕ) → fav_factor (s'.entry p) ≡ fav_factor (entries p))
update_bitmap_score_lem_example = update_bitmap_score_lem 3 1 scores refl

update_bitmap_score-IsScored_example :
    let s' = update_bitmap_score 3 1 scores in IsScored 3 1 s'.top_rated s'
update_bitmap_score-IsScored_example =
    update_bitmap_score-IsScored 3 1 scores (omega arith) (omega arith) scores-IsScored

abbrev culling : Culling
culling = record { scores = scores; temp_v = 0 ∷ []; redundant_file = λ q. false }

small : (w : ℕ) (m : List ℕ) → (scores.entry w).trace_mini ≡ some m → IsBytes m
small w m e = elim (Bool-cases (w == 0)) [
  | inl is_zero ↦ let is_five : (5 ∷ []) ≡ m = ground arith in rw (← is_five) (omega arith)
  | inr other ↦ cc (other, e)
]

scores-IsReady : IsReady scores
scores-IsReady = record {
  kept = λ k w e gone. ground (arith, (holders k w e).0);
  traced = scores-traced;
  bytes = λ w m e. small w m e;
}

culling-FilesAgree : FilesAgree culling
culling-FilesAgree q = ground arith

cull_queue_lem_example :
    (c' : Culling) × (cull_queue 3 false culling ≡ some c')
    × ((k w : ℕ) → k < map_size 3 → get_or scores.top_rated k none ≡ some w → IsCovered k c'.scores)
    × All (MarkFits c') scores.queue
    × FilesAgree c'
cull_queue_lem_example =
    cull_queue_lem 3 culling (omega arith) refl scores-IsReady culling-FilesAgree
