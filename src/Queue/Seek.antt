-- ===== src/Queue/Seek.antt =====
-- What the links of the queue are, and which entry a seek reaches.
use nfuzzer.Base.{
  ℕ, zero, suc, ◌+◌, ◌-◌, ◌*◌, ◌/◌, ◌%◌, ◌^◌, ◌≤◌, ◌<◌, ◌≡◌, refl, ap, ◌∙◌, arith, ◌==◌, ltb,
  if◌then◌else◌, Option, none, some, Bool-cases, ltb→lt, inl, inr,
}
use nfuzzer.Queue.{Links, append_entry, count_entry, add_links, skip_hundreds, walk_next, seek}

-- The links of a queue of `queued_paths` entries. The link of the first entry that skips ahead
-- leads to entry 99, those of the entries 99, 199, … to entries 199, 299, ….
pub record IsLinked (l : Links) : Type 0 where
  pub head : l.queue ≡ (if l.queued_paths == 0 then none else some 0)
  pub top : l.queue_top ≡ (if l.queued_paths == 0 then none else some (l.queued_paths - 1))
  pub marker : l.q_prev100 ≡ (
      if l.queued_paths == 0
      then none
      else (if ltb l.queued_paths 100 then some 0 else some (100 * (l.queued_paths / 100) - 1)))
  pub nexts : (k : ℕ) → k + 1 < l.queued_paths → l.next k ≡ some (k + 1)
  pub ends : (k : ℕ) → l.queued_paths ≤ k + 1 → l.next k ≡ none
  pub first_jump : 100 ≤ l.queued_paths → l.next_100 0 ≡ some 99
  pub jumps :
      (j : ℕ) → 100 * j + 200 ≤ l.queued_paths → l.next_100 (100 * j + 99) ≡ some (100 * j + 199)

pub add_links-IsLinked :
    (l : Links) → l.queued_paths + 1 < 2 ^ 32 → IsLinked l → IsLinked (add_links l)
unfolding add_links append_entry count_entry
add_links-IsLinked l small v = record {
  head = ground (arith, v.head, v.top);
  top = ground (arith, v.head, v.top);
  marker = ground (arith, v.head, v.top, v.marker);
  nexts = λ k h. ground (arith, v.top, v.nexts k);
  ends = λ k h. ground (arith, v.top, v.ends k);
  first_jump = λ h. ground (arith, v.top, v.marker, v.first_jump);
  jumps = λ j h. ground (arith, v.top, v.marker, v.jumps j);
}

module _ (l : Links) (v : IsLinked l) where
  walk_next_lem : (k p : ℕ) → p + k < l.queued_paths → walk_next l k (some p) ≡ some (p + k)
  unfolding walk_next
  walk_next_lem zero p h = ground arith
  walk_next_lem (suc k) p h =
      ap (walk_next l k) (v.nexts p (omega arith))
      ∙ walk_next_lem k (p + 1) (omega arith)
      ∙ ap some (omega arith)

  skip_hundreds_lem :
      (fuel tid j : ℕ)
      → tid ≤ fuel
      → 100 * j + 100 + tid < l.queued_paths
      → skip_hundreds l fuel tid (some (100 * j + 99))
        ≡ (some (100 * (j + tid / 100) + 99), tid % 100)
  unfolding skip_hundreds
  skip_hundreds_lem zero tid j f h = ground arith
  skip_hundreds_lem (suc fuel) tid j f h =
      ground (arith, v.jumps j, skip_hundreds_lem fuel (tid - 100) (j + 1))

  -- From the first entry.
  skipped :
      (fuel tid : ℕ)
      → tid ≤ fuel
      → 100 ≤ tid
      → tid < l.queued_paths
      → skip_hundreds l fuel tid (some 0) ≡ (some (100 * (tid / 100) - 1), tid % 100)
  unfolding skip_hundreds
  skipped zero tid f far h = absurd (omega arith)
  skipped (suc fuel) tid f far h =
      ground (arith, far, v.first_jump, skip_hundreds_lem fuel (tid - 100) 0)

  near_by : (fuel tid : ℕ) → tid < 100 → skip_hundreds l fuel tid (some 0) ≡ (some 0, tid)
  unfolding skip_hundreds
  near_by zero tid h = refl
  near_by (suc fuel) tid h = ground arith

  walked :
      (r : Option ℕ × ℕ) (p k : ℕ)
      → r ≡ (some p, k)
      → p + k < l.queued_paths
      → walk_next l r.1 r.0 ≡ some (p + k)
  walked r p k e h = ap (λ (x : Option ℕ × ℕ). walk_next l x.1 x.0) e ∙ walk_next_lem k p h

  -- The seek to a random number below `queued_paths` never
  -- runs off the queue. It reaches the entry of that number if the number is below 100, and the
  -- entry before it if not, as the first link that skips ahead leads to entry 99.
  pub seek_lem :
      (tid : ℕ) → tid < l.queued_paths → seek l tid ≡ some (if ltb tid 100 then tid else tid - 1)
  unfolding seek
  seek_lem tid h =
      let from_head : Option ℕ → Option ℕ =
        λ target. let r = skip_hundreds l tid tid target in walk_next l r.1 r.0 in
      ap from_head (ground (arith, v.head)) ∙ elim (Bool-cases (ltb tid 100)) [
        | inl near ↦
            walked (skip_hundreds l tid tid (some 0)) 0 tid (near_by tid tid (ltb→lt tid 100 near))
              (omega arith)
            ∙ ap some (ground (arith, near))
        | inr far ↦
            walked (skip_hundreds l tid tid (some 0)) (100 * (tid / 100) - 1) (tid % 100)
              (skipped tid tid (omega arith) (ground (arith, far)) h) (ground (arith, far))
            ∙ ap some (ground (arith, far))
      ]
