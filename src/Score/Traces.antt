-- ===== src/Score/Traces.antt =====
-- The compacted traces: the holder of a slot has the slot's bit in its compacted trace.
use mathlib.Core.Path.{subst}
use nfuzzer.Base.{
  ℕ, zero, suc, ◌+◌, ◌/◌, ◌^◌, ◌<◌, ◌==◌, ltb, Option, none, some, List, [], ◌∷◌, get_or, set,
  replicate, length, ◌≡◌, ◌≢◌, refl, ◌∙◌, arith, get_or-set_self, get_or-set_ne, ℕ_discrete, sym,
  Bool-cases, inl, inr, length-replicate,
}
use nfuzzer.Config.{map_size, map_size-words}
use nfuzzer.Bitmap.Minimize.{minimize_bits}
use nfuzzer.Bitmap.Minimize.Bits.{bit_at, minimize_bits_lem}
use nfuzzer.Score.{
  Entry, Scores, fav_factor, release, win, contest, score_step, score_from, update_bitmap_score,
  dropped, taken,
}
use nfuzzer.Score.Refs.{update_elim, slots, IsCounted, release-IsCounted, win-IsCounted, set_twice}

-- Bit k of the compacted trace, where there is one.
abbrev pub HasBit : ℕ → Entry → Type 0
HasBit k e = (m : List ℕ) → e.trace_mini ≡ some m → bit_at m k ≡ 1

-- Every holder of a slot of `top` has the slot's bit.
abbrev pub IsTraced : List (Option ℕ) → Scores → Type 0
IsTraced top s = (k w : ℕ) → get_or top k none ≡ some w → HasBit k (s.entry w)

-- An entry without a compacted trace, or with one that covers the present trace.
abbrev pub Agrees : ℕ → ℕ → Scores → Type 0
Agrees pow2 q s = (k : ℕ) → k < map_size pow2 → get_or s.trace_bits k 0 ≢ 0 → HasBit k (s.entry q)

slots-pos : (p k : ℕ) (top : List (Option ℕ)) → get_or top k none ≡ some p → 0 < slots p top
slots-pos p k [] h = cc
slots-pos p zero (t ∷ top) h = ground arith
slots-pos p (suc k) (t ∷ top) h = omega (arith, slots-pos p k top h)

-- A fresh compacted trace has the bits of the trace.
minimized-HasBit :
    (pow2 k : ℕ) (trace : List ℕ)
    → 2 < pow2
    → k < map_size pow2
    → get_or trace k 0 ≢ 0
    → bit_at (minimize_bits pow2 (replicate (map_size pow2 / 8) 0) trace) k ≡ 1
minimized-HasBit pow2 k trace wide below hit = ground (
  arith,
  minimize_bits_lem pow2 (replicate (map_size pow2 / 8) 0) trace k
      (omega (arith, length-replicate {A = ℕ} (map_size pow2 / 8) 0, map_size-words pow2 wide)),
)

dropped-HasBit : (k : ℕ) (e : Entry) → HasBit k e → HasBit k (dropped e)
dropped-HasBit k e h m found = h m (ground arith)

-- The trace that an entry takes a slot with: its own, or a fresh one.
taken-HasBit :
    (pow2 k : ℕ) (trace : List ℕ) (e : Entry)
    → (e.trace_mini ≡ none
        → bit_at (minimize_bits pow2 (replicate (map_size pow2 / 8) 0) trace) k ≡ 1)
    → HasBit k e
    → HasBit k (taken pow2 trace e)
taken-HasBit pow2 k trace e fresh h m found = by_trace e.trace_mini refl
  where
    by_trace : (t : Option (List ℕ)) → e.trace_mini ≡ t → bit_at m k ≡ 1
    by_trace none none_yet = ground (arith, fresh none_yet)
    by_trace (some m') old = ground (arith, h m' old)

module _ (pow2 i : ℕ) (top : List (Option ℕ)) (s : Scores) (below : i < length top) where
  release-IsTraced : (w : ℕ) → IsTraced top s → IsTraced (set top i none) (release w s)
  unfolding release
  release-IsTraced w traced k p held = elim (ℕ_discrete i k) [
    | yes e ↦ cc (get_or-set_self top i none none below, held, e)
    | no ne ↦
        let old : get_or top k none ≡ some p = sym (get_or-set_ne top i k none none ne) ∙ held in
        update_elim (HasBit k) s.entry w (dropped (s.entry w)) p
          (λ e. dropped-HasBit k (s.entry w) (rw (← e) (traced k p old))) (λ _. traced k p old)
  ]

  release-Agrees : (q w : ℕ) → Agrees pow2 q s → Agrees pow2 q (release w s)
  unfolding release
  release-Agrees q w agrees k lt hit =
      update_elim (HasBit k) s.entry w (dropped (s.entry w)) q
        (λ e. dropped-HasBit k (s.entry w) (rw (← e) (agrees k lt hit))) (λ _. agrees k lt hit)

  win-IsTraced :
      (q : ℕ)
      → 2 < pow2
      → i < map_size pow2
      → get_or s.trace_bits i 0 ≢ 0
      → get_or top i none ≡ none
      → IsCounted pow2 top s
      → Agrees pow2 q s
      → IsTraced top s
      → IsTraced (set top i (some q)) (win pow2 q i s)
  unfolding win
  win-IsTraced q wide lt hit free v agrees traced k p held = elim (ℕ_discrete i k) [
    | yes e ↦
        update_elim (HasBit k) s.entry q (taken pow2 s.trace_bits (s.entry q)) p
          (λ _.
            taken-HasBit pow2 k s.trace_bits (s.entry q)
              (λ _. rw (← e) (minimized-HasBit pow2 i s.trace_bits wide lt hit))
              (rw (← e) (agrees i lt hit)))
          (λ ne. absurd (ne (cc (get_or-set_self top i (some q) none below, held, e))))
    | no ne ↦
        let old : get_or top k none ≡ some p =
          sym (get_or-set_ne top i k (some q) none ne) ∙ held in
        update_elim (HasBit k) s.entry q (taken pow2 s.trace_bits (s.entry q)) p
          (λ e.
            taken-HasBit pow2 k s.trace_bits (s.entry q)
              (λ gone. absurd (
                (v.counts q).1.1
                  (λ z. absurd (omega (arith, slots-pos q k top (rw (← e) old), (v.counts q).0)))
                  gone))
              (rw (← e) (traced k p old)))
          (λ _. traced k p old)
  ]

  win-Agrees : (q : ℕ) → 2 < pow2 → Agrees pow2 q s → Agrees pow2 q (win pow2 q i s)
  unfolding win
  win-Agrees q wide agrees k lt hit =
      update_elim (HasBit k) s.entry q (taken pow2 s.trace_bits (s.entry q)) q
        (λ _.
          taken-HasBit pow2 k s.trace_bits (s.entry q)
            (λ _. minimized-HasBit pow2 k s.trace_bits wide lt hit) (agrees k lt hit))
        (λ ne. absurd (ne refl))

-- What scoring keeps about the traces, `top` being `top_rated` between two steps.
pub record IsScored (pow2 q : ℕ) (top : List (Option ℕ)) (s : Scores) : Type 0 where
  pub counted : IsCounted pow2 top s
  pub traced : IsTraced top s
  pub agrees : Agrees pow2 q s

module _ (pow2 q factor : ℕ) (wide : 2 < pow2) (small : map_size pow2 < 2 ^ 32) where
  win-IsScored :
      (i : ℕ) (top : List (Option ℕ)) (s : Scores)
      → i < map_size pow2
      → get_or s.trace_bits i 0 ≢ 0
      → get_or top i none ≡ none
      → IsScored pow2 q top s
      → IsScored pow2 q (set top i (some q)) (win pow2 q i s)
  win-IsScored i top s lt hit free v =
      let below : i < length top = omega (arith, v.counted.size) in
      record {
        counted = win-IsCounted pow2 i top s small v.counted below q free;
        traced = win-IsTraced pow2 i top s below q wide lt hit free v.counted v.agrees v.traced;
        agrees = win-Agrees pow2 i top s below q wide v.agrees;
      }

  release-IsScored :
      (i w : ℕ) (top : List (Option ℕ)) (s : Scores)
      → i < map_size pow2
      → get_or top i none ≡ some w
      → IsScored pow2 q top s
      → IsScored pow2 q (set top i none) (release w s)
  release-IsScored i w top s lt held v =
      let below : i < length top = omega (arith, v.counted.size) in
      record {
        counted = release-IsCounted pow2 i top s small v.counted below w held;
        traced = release-IsTraced pow2 i top s below w v.traced;
        agrees = release-Agrees pow2 i top s below q w v.agrees;
      }

  contest-IsScored :
      (i : ℕ) (s : Scores) (t : Option ℕ)
      → i < map_size pow2
      → get_or s.trace_bits i 0 ≢ 0
      → get_or s.top_rated i none ≡ t
      → IsScored pow2 q s.top_rated s
      → let s' = contest pow2 q factor i s t in IsScored pow2 q s'.top_rated s'
  unfolding contest win release
  contest-IsScored i s none lt hit held v = win-IsScored i s.top_rated s lt hit held v
  contest-IsScored i s (some w) lt hit held v =
      elim (Bool-cases (ltb (fav_factor (s.entry w)) factor)) [
        | inl worse ↦ rw worse v
        | inr better ↦ rw better (
            subst (λ top. IsScored pow2 q top (win pow2 q i (release w s)))
              (set_twice s.top_rated i none (some q))
              (win-IsScored i (set s.top_rated i none) (release w s) lt hit
                (get_or-set_self s.top_rated i none none (omega (arith, v.counted.size)))
                (release-IsScored i w s.top_rated s lt held v)))
      ]

  score_from-IsScored :
      (left i : ℕ) (s : Scores)
      → i + left ≡ map_size pow2
      → IsScored pow2 q s.top_rated s
      → let s' = score_from pow2 q factor left i s in IsScored pow2 q s'.top_rated s'
  unfolding score_from score_step
  score_from-IsScored zero i s e v = v
  score_from-IsScored (suc left) i s e v =
      score_from-IsScored left (i + 1) (score_step pow2 q factor i s) (omega arith)
        (elim (Bool-cases (get_or s.trace_bits i 0 == 0)) [
          | inl clean ↦ rw clean v
          | inr hit ↦
              rw hit (
                contest-IsScored i s (get_or s.top_rated i none) (omega arith) (ground arith) refl
                  v)
        ])

-- Scoring an entry that has no compacted trace, or one that covers the present trace, keeps for all
-- entries: every holder of a slot has the slot's bit in its compacted trace, and the reference
-- counts are exact.
pub update_bitmap_score-IsScored :
    (pow2 q : ℕ) (s : Scores)
    → 2 < pow2
    → map_size pow2 < 2 ^ 32
    → IsScored pow2 q s.top_rated s
    → let s' = update_bitmap_score pow2 q s in IsScored pow2 q s'.top_rated s'
unfolding update_bitmap_score
update_bitmap_score-IsScored pow2 q s wide small v =
    score_from-IsScored pow2 q (fav_factor (s.entry q)) wide small (map_size pow2) 0 s (omega arith)
      v
