-- ===== src/Queue/Add.antt =====
-- What add_to_queue() does to the queue, and which entry is spliced with.
use nfuzzer.Base.{
  subst, ℕ, zero, suc, ◌+◌, ◌-◌, ◌*◌, ◌^◌, ◌≤◌, ◌<◌, ◌≡◌, ◌≢◌, arith, ◌==◌, ltb, if◌then◌else◌,
  Bool, true, false, Option, none, some, Bool-cases, inl, inr, List, dec_lt,
}
use nfuzzer.Tree.{chunks}
use nfuzzer.Tree.Copy.{copy_chunks, copy_chunks_lem, forget, IsWithin}
use nfuzzer.Queue.{
  Queue, parent_chunk, add_to_queue, add_links, is_unfit, skip_unfit, splice_target, append_entry,
  count_entry,
}
use nfuzzer.Queue.Seek.{IsLinked, add_links-IsLinked, seek_lem}

-- The first fit entry from `start` on.
abbrev pub IsFirstFit : Queue → ℕ → Option ℕ → Type 0
IsFirstFit u start none =
    (k : ℕ) → start ≤ k → k < u.links.queued_paths → is_unfit u.entry u.queue_cur k ≡ true
IsFirstFit u start (some q) =
    (start ≤ q)
    × (q < u.links.queued_paths)
    × (is_unfit u.entry u.queue_cur q ≡ false)
    × ((k : ℕ) → start ≤ k → k < q → is_unfit u.entry u.queue_cur k ≡ true)

module _ (u : Queue) (v : IsLinked u.links) where
  from_here :
      (start : ℕ) (o : Option ℕ)
      → is_unfit u.entry u.queue_cur start ≡ true
      → IsFirstFit u (start + 1) o
      → IsFirstFit u start o
  from_here start none bad h = λ k low high. elim (Bool-cases (k == start)) [
    | inl e ↦ ground (arith, e, bad)
    | inr e ↦ h k (ground (arith, e, low)) high
  ]
  from_here start (some q) bad h = (
    omega (arith, h.0),
    h.1,
    h.2,
    λ k low high. elim (Bool-cases (k == start)) [
      | inl e ↦ ground (arith, e, bad)
      | inr e ↦ h.3 k (ground (arith, e, low)) high
    ],
  )

  skip_unfit-IsFirstFit :
      (fuel p : ℕ)
      → p < u.links.queued_paths
      → u.links.queued_paths ≤ fuel + p
      → IsFirstFit u p (skip_unfit fuel u (some p))
  unfolding skip_unfit
  skip_unfit-IsFirstFit zero p h enough = absurd (omega arith)
  skip_unfit-IsFirstFit (suc fuel) p h enough = elim (Bool-cases (is_unfit u.entry u.queue_cur p)) [
    | inl bad ↦
        rw (bad, skip_unfit)
          (from_here p _ bad (elim (dec_lt (p + 1) u.links.queued_paths) [
            | yes more ↦ rw (v.nexts p more) (skip_unfit-IsFirstFit fuel (p + 1) more (omega arith))
            | no last ↦
                rw (v.ends p (omega arith), skip_unfit) (λ k low high. absurd (omega (arith, last)))
          ]))
    | inr good ↦ rw (good, skip_unfit) (omega arith, h, good, λ k low high. absurd (omega arith))
  ]

  -- In a linked queue, for a number below `queued_paths`: the entry that is spliced with is the first of two bytes or more, other than the present one, from the entry of
  -- that number on if the number is below 100, and from the entry before it on if not, as the first
  -- link that skips ahead leads to entry 99; there is none exactly if none of those is fit.
  pub splice_target-IsFirstFit :
      (tid : ℕ)
      → tid < u.links.queued_paths
      → IsFirstFit u (if ltb tid 100 then tid else tid - 1) (splice_target u tid)
  unfolding splice_target
  splice_target-IsFirstFit tid h =
      let start = if ltb tid 100 then tid else tid - 1 in
      rw (seek_lem u.links v tid h)
        (skip_unfit-IsFirstFit u.links.queued_paths start (ground arith) (omega arith))

self : (n : ℕ) → (n == n) ≡ true
self n = ground arith

-- What a new entry is like, and what is left as it was.
pub record IsAdded (fname : List ℕ) (len : ℕ) (passed_det : Bool) (u u' : Queue) : Type 0 where
  pub linked : IsLinked u'.links
  pub counted : u'.links.queued_paths ≡ u.links.queued_paths + 1
  pub named : (u'.entry u.links.queued_paths).fname ≡ fname
  pub sized : (u'.entry u.links.queued_paths).len ≡ len
  pub det : (u'.entry u.links.queued_paths).passed_det ≡ passed_det
  pub deepest : (u'.entry u.links.queued_paths).depth ≤ u'.max_depth
  pub chunk : forget (u'.entry u.links.queued_paths).chunk ≡ forget (parent_chunk u)
  pub cached : forget (u'.entry u.links.queued_paths).cached_chunk ≡ forget (parent_chunk u)
  pub chunk_at :
      IsWithin u.free (u.free + chunks (parent_chunk u)) (u'.entry u.links.queued_paths).chunk
  pub cached_at :
      IsWithin
        (u.free + chunks (parent_chunk u))
        u'.free
        (u'.entry u.links.queued_paths).cached_chunk
  pub fresh : u'.free ≡ u.free + 2 * chunks (parent_chunk u)
  pub others : (k : ℕ) → k ≢ u.links.queued_paths → u'.entry k ≡ u.entry k

-- add_to_queue() on a linked queue of fewer than 2 ^ 32 - 1 entries: the links are right again, the
-- new entry is the last and has the given name, length and mark, a depth not above `max_depth`, and
-- two copies of its parent's chunk tree: the chunks of the first stand at the addresses from `free` on
-- that were unused, those of the second at the ones after them. The other entries stay.
pub add_to_queue-IsAdded :
    (fname : List ℕ) (len : ℕ) (passed_det : Bool) (now : ℕ) (u : Queue)
    → u.links.queued_paths + 1 < 2 ^ 32
    → IsLinked u.links
    → IsAdded fname len passed_det u (add_to_queue fname len passed_det now u)
unfolding add_to_queue
add_to_queue-IsAdded fname len passed_det now u small v =
    let copy = copy_chunks_lem (parent_chunk u) u.free in
    let cached = copy_chunks_lem (parent_chunk u) (copy_chunks (parent_chunk u) u.free).free in
    record {
      linked = add_links-IsLinked u.links small v;
      counted = unfold add_links append_entry count_entry in ground arith;
      named = ground arith;
      sized = ground arith;
      det = ground arith;
      deepest = ground arith;
      chunk = rw (self u.links.queued_paths) copy.0;
      cached = rw (self u.links.queued_paths) cached.0;
      chunk_at = rw (self u.links.queued_paths) (
          subst (λ (top : ℕ). IsWithin u.free top (copy_chunks (parent_chunk u) u.free).tree) copy.1
            copy.2);
      cached_at = rw (self u.links.queued_paths) (
          subst
            (λ (low : ℕ).
              IsWithin low
                (copy_chunks (parent_chunk u) (copy_chunks (parent_chunk u) u.free).free).free
                (copy_chunks (parent_chunk u) (copy_chunks (parent_chunk u) u.free).free).tree)
            copy.1 cached.2);
      fresh = omega (arith, copy.1, cached.1);
      others = λ k h. ground (arith, h);
    }
