-- ===== src/Tree/Destroy.antt =====
-- search_and_destroy_chunk of fuzzer/smart-chunks.c: it ends, the target is gone, and what becomes
-- of the positions of the other chunks.
use nfuzzer.Base.{ℕ, zero, suc, ◌+◌, ◌≤◌, ◌≡◌, ◌≢◌, refl, ◌∙◌, arith, Option, some, ℕ_discrete}
use nfuzzer.Tree.{
  Fields, Tree, null, chunk, chunks, reduce_fields, reduce_byte_positions, destroy,
  search_and_destroy_chunk,
}
use nfuzzer.Tree.Shift.{Each}

chunks-reduce : (c : Tree) (s size : ℕ) → chunks (reduce_byte_positions c s size) ≡ chunks c
unfolding chunks reduce_byte_positions
chunks-reduce null s size = refl
chunks-reduce (chunk f next children) s size =
    omega (arith, chunks-reduce next s size, chunks-reduce children s size)

-- A tree without the target.
abbrev pub IsFree : ℕ → Tree → Type 0
IsFree target = Each (λ f. f.address ≢ target)

IsFree-reduce :
    (c : Tree) (target s size : ℕ)
    → IsFree target c
    → IsFree target (reduce_byte_positions c s size)
unfolding reduce_byte_positions reduce_fields
IsFree-reduce null target s size h = tt
IsFree-reduce (chunk f next children) target s size h =
    (h.0, IsFree-reduce next target s size h.1, IsFree-reduce children target s size h.2)

-- The outcome: a tree without the target and with no more chunks than before.
abbrev Destroyed : Option Tree → ℕ → Tree → Type 0
Destroyed out target c =
    (rest : Tree) × (out ≡ some rest) × IsFree target rest × (chunks rest ≤ chunks c)

module _ (target s size : ℕ) where
  hit :
      (fuel : ℕ) (f : Fields) (next children : Tree)
      → f.address ≡ target
      → destroy (suc fuel) (chunk f next children) target s size
        ≡ destroy fuel (reduce_byte_positions next s size) target s size
  unfolding destroy
  hit fuel f next children e = ground arith

  miss :
      (fuel : ℕ) (f : Fields) (next children rest below : Tree)
      → f.address ≢ target
      → destroy fuel next target s size ≡ some rest
      → destroy fuel children target s size ≡ some below
      → destroy (suc fuel) (chunk f next children) target s size
        ≡ some (chunk (reduce_fields s size f) rest below)
  unfolding destroy
  miss fuel f next children rest below e p q = ground arith

  destroy_lem :
      (fuel : ℕ) (c : Tree) → chunks c ≤ fuel → Destroyed (destroy fuel c target s size) target c
  unfolding chunks destroy reduce_fields
  destroy_lem fuel null h = (null, refl, tt, omega arith)
  destroy_lem zero (chunk f next children) h = absurd (omega arith)
  destroy_lem (suc fuel) (chunk f next children) h = elim (ℕ_discrete f.address target) [
    | yes e ↦
        let moved = reduce_byte_positions next s size in
        let r = destroy_lem fuel moved (omega (arith, chunks-reduce next s size)) in
        (r.0, hit fuel f next children e ∙ r.1, r.2, omega (arith, r.3, chunks-reduce next s size))
    | no e ↦
        let p = destroy_lem fuel next (omega arith) in
        let q = destroy_lem fuel children (omega arith) in
        (
          chunk (reduce_fields s size f) p.0 q.0,
          miss fuel f next children p.0 q.0 e p.1 q.1,
          (e, p.2, q.2),
          omega (arith, p.3, q.3),
        )
  ]

  free_destroy :
      (fuel : ℕ) (c : Tree)
      → chunks c ≤ fuel
      → IsFree target c
      → destroy fuel c target s size ≡ some (reduce_byte_positions c s size)
  unfolding chunks reduce_byte_positions destroy
  free_destroy fuel null h free = refl
  free_destroy zero (chunk f next children) h free = absurd (omega arith)
  free_destroy (suc fuel) (chunk f next children) h free =
      miss fuel f next children (reduce_byte_positions next s size)
        (reduce_byte_positions children s size) free.0 (free_destroy fuel next (omega arith) free.1)
        (free_destroy fuel children (omega arith) free.2)

-- The search ends in one round for each chunk, with a tree that does not hold the target and has
-- no more chunks than before.
pub search_and_destroy_chunk_lem :
    (c : Tree) (target s size : ℕ)
    → (rest : Tree) × (search_and_destroy_chunk c target s size ≡ some rest)
      × IsFree target rest
      × (chunks rest ≤ chunks c)
unfolding search_and_destroy_chunk
search_and_destroy_chunk_lem c target s size = destroy_lem target s size (chunks c) c (omega arith)

-- In a tree without the target the search does what reduce_byte_positions does.
pub search_and_destroy_chunk-absent :
    (c : Tree) (target s size : ℕ)
    → IsFree target c
    → search_and_destroy_chunk c target s size ≡ some (reduce_byte_positions c s size)
unfolding search_and_destroy_chunk
search_and_destroy_chunk-absent c target s size free =
    free_destroy target s size (chunks c) c (omega arith) free

-- When the target is the first of a list of siblings and stands nowhere after it, the positions of
-- every later sibling are reduced twice: the result is what two calls of reduce_byte_positions
-- make of the siblings.
pub search_and_destroy_chunk-twice :
    (f : Fields) (next children : Tree) (s size : ℕ)
    → IsFree f.address next
    → search_and_destroy_chunk (chunk f next children) f.address s size
      ≡ some (reduce_byte_positions (reduce_byte_positions next s size) s size)
unfolding search_and_destroy_chunk chunks
search_and_destroy_chunk-twice f next children s size free =
    hit f.address s size (chunks next + chunks children) f next children refl
    ∙ free_destroy f.address s size (chunks next + chunks children)
        (reduce_byte_positions next s size) (omega (arith, chunks-reduce next s size))
        (IsFree-reduce next f.address s size free)
