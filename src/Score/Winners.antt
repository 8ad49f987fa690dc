-- ===== src/Score/Winners.antt =====
-- Who holds each slot after scoring, and what the compacted trace of a holder says.
use nfuzzer.Base.{
  ℕ, zero, suc, ◌+◌, ◌≤◌, ◌<◌, ◌==◌, ltb, leb, ◌&&◌, if◌then◌else◌, Option, none, some, get_or,
  length, ◌≡◌, ◌≢◌, refl, ◌∙◌, arith, length-set, get_or-set_self, get_or-set_ne, ℕ_discrete,
  Bool-cases, inl, inr, not,
}
use nfuzzer.Config.{map_size}
use nfuzzer.Score.{
  Entry, Scores, fav_factor, release, win, contest, score_step, score_from, update_bitmap_score,
  dropped, taken,
}
use nfuzzer.Score.Refs.{update_elim}

-- The better of a slot's holder and the entry q; the holder keeps the slot if its product of time
-- and size is strictly smaller.
unfoldable pub champion : (ℕ → Entry) → ℕ → ℕ → Option ℕ → Option ℕ
champion entry q factor none = some q
champion entry q factor (some w) = if ltb (fav_factor (entry w)) factor then some w else some q

-- Scoring never touches what entries are rated by, nor the trace.
record SameRates (s s' : Scores) : Type 0 where
  rates : (p : ℕ) → fav_factor (s'.entry p) ≡ fav_factor (s.entry p)
  trace : s'.trace_bits ≡ s.trace_bits
  size : length s'.top_rated ≡ length s.top_rated

release-rates :
    (w : ℕ) (s : Scores) (p : ℕ) → fav_factor ((release w s).entry p) ≡ fav_factor (s.entry p)
unfolding release
release-rates w s p =
    update_elim (λ e. fav_factor e ≡ fav_factor (s.entry p)) s.entry w (dropped (s.entry w)) p
      (λ e. rw e) (λ ne. refl)

win-rates :
    (pow2 q i : ℕ) (s : Scores) (p : ℕ)
    → fav_factor ((win pow2 q i s).entry p) ≡ fav_factor (s.entry p)
unfolding win
win-rates pow2 q i s p =
    update_elim (λ e. fav_factor e ≡ fav_factor (s.entry p)) s.entry q
      (taken pow2 s.trace_bits (s.entry q)) p (λ e. rw e) (λ ne. refl)

module _ (pow2 q factor : ℕ) where
  contest-SameRates :
      (i : ℕ) (s : Scores) (t : Option ℕ) → SameRates s (contest pow2 q factor i s t)
  unfolding contest
  contest-SameRates i s none = record {
    rates = win-rates pow2 q i s;
    trace = unfold win in refl;
    size = unfold win in length-set s.top_rated i (some q);
  }
  contest-SameRates i s (some w) = elim (Bool-cases (ltb (fav_factor (s.entry w)) factor)) [
    | inl worse ↦ rw worse (record { rates = λ p. refl; trace = refl; size = refl })
    | inr better ↦ rw better (record {
      rates = λ p. win-rates pow2 q i (release w s) p ∙ release-rates w s p;
      trace = unfold win release in refl;
      size = unfold win release in length-set s.top_rated i (some q);
    })
  ]

  score_step-SameRates : (i : ℕ) (s : Scores) → SameRates s (score_step pow2 q factor i s)
  unfolding score_step
  score_step-SameRates i s = elim (Bool-cases (get_or s.trace_bits i 0 == 0)) [
    | inl clean ↦ rw clean (record { rates = λ p. refl; trace = refl; size = refl })
    | inr hit ↦ rw hit (contest-SameRates i s (get_or s.top_rated i none))
  ]

  score_from-SameRates : (left i : ℕ) (s : Scores) → SameRates s (score_from pow2 q factor left i s)
  unfolding score_from
  score_from-SameRates zero i s = record { rates = λ p. refl; trace = refl; size = refl }
  score_from-SameRates (suc left) i s =
      let one = score_step-SameRates i s in
      let rest = score_from-SameRates left (i + 1) (score_step pow2 q factor i s) in
      record {
        rates = λ p. rest.rates p ∙ one.rates p;
        trace = rest.trace ∙ one.trace;
        size = rest.size ∙ one.size;
      }

  -- The slot that a step is about gets the champion if its byte is set.
  score_step_self :
      (i : ℕ) (s : Scores)
      → i < length s.top_rated
      → get_or (score_step pow2 q factor i s).top_rated i none ≡ (
          if get_or s.trace_bits i 0 == 0
          then get_or s.top_rated i none
          else champion s.entry q factor (get_or s.top_rated i none))
  unfolding score_step
  score_step_self i s below = elim (Bool-cases (get_or s.trace_bits i 0 == 0)) [
    | inl clean ↦ rw clean
    | inr hit ↦ rw hit (by_holder (get_or s.top_rated i none) refl)
  ]
    where
      by_holder :
          (t : Option ℕ)
          → get_or s.top_rated i none ≡ t
          → get_or (contest pow2 q factor i s t).top_rated i none ≡ champion s.entry q factor t
      by_holder none e =
          unfold contest win champion in get_or-set_self s.top_rated i (some q) none below
      by_holder (some w) e =
          unfold contest win release champion in
          ground (arith, get_or-set_self s.top_rated i (some q) none below)

  score_step_ne :
      (i k : ℕ) (s : Scores)
      → i ≢ k
      → get_or (score_step pow2 q factor i s).top_rated k none ≡ get_or s.top_rated k none
  unfolding score_step
  score_step_ne i k s ne = elim (Bool-cases (get_or s.trace_bits i 0 == 0)) [
    | inl clean ↦ rw clean
    | inr hit ↦ rw hit (by_holder (get_or s.top_rated i none))
  ]
    where
      by_holder :
          (t : Option ℕ)
          → get_or (contest pow2 q factor i s t).top_rated k none ≡ get_or s.top_rated k none
      by_holder none = unfold contest win in get_or-set_ne s.top_rated i k (some q) none ne
      by_holder (some w) =
          unfold contest win release in
          ground (arith, get_or-set_ne s.top_rated i k (some q) none ne)

  champion-ext :
      (f g : ℕ → Entry) (t : Option ℕ)
      → ((p : ℕ) → fav_factor (f p) ≡ fav_factor (g p))
      → champion f q factor t ≡ champion g q factor t
  unfolding champion
  champion-ext f g none h = refl
  champion-ext f g (some w) h = rw (h w)

  score_from_lem :
      (left i k : ℕ) (s : Scores)
      → i + left ≤ length s.top_rated
      → get_or (score_from pow2 q factor left i s).top_rated k none ≡ (
          if leb i k && ltb k (i + left) && not (get_or s.trace_bits k 0 == 0)
          then champion s.entry q factor (get_or s.top_rated k none)
          else get_or s.top_rated k none)
  unfolding score_from
  score_from_lem zero i k s h = ground arith
  score_from_lem (suc left) i k s h =
      let step = score_step-SameRates i s in
      score_from_lem left (i + 1) k (score_step pow2 q factor i s) (omega (arith, step.size))
      ∙ rw
          (
            step.trace,
            champion-ext (score_step pow2 q factor i s).entry s.entry
                (get_or (score_step pow2 q factor i s).top_rated k none) step.rates,
          )
          (elim (ℕ_discrete i k) [
            | yes e ↦ rw e (ground (arith, score_step_self k s (omega arith)))
            | no ne ↦ ground (arith, score_step_ne i k s ne)
          ])

-- After scoring q, every slot below MAP_SIZE whose byte is set in the trace is held by the better of
-- its old holder and q, every other slot is as before, and so are the ratings of all entries.
pub update_bitmap_score_lem :
    (pow2 q : ℕ) (s : Scores)
    → length s.top_rated ≡ map_size pow2
    → let s' = update_bitmap_score pow2 q s in
      ((k : ℕ)
        → get_or s'.top_rated k none ≡ (
            if ltb k (map_size pow2) && not (get_or s.trace_bits k 0 == 0)
            then champion s.entry q (fav_factor (s.entry q)) (get_or s.top_rated k none)
            else get_or s.top_rated k none))
      × ((p : ℕ) → fav_factor (s'.entry p) ≡ fav_factor (s.entry p))
unfolding update_bitmap_score
update_bitmap_score_lem pow2 q s size = (
  λ k.
      score_from_lem pow2 q (fav_factor (s.entry q)) (map_size pow2) 0 k s (omega arith)
      ∙ ground arith,
  (score_from-SameRates pow2 q (fav_factor (s.entry q)) (map_size pow2) 0 s).rates,
)
