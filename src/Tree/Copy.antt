-- ===== src/Tree/Copy.antt =====
-- Copies of trees: copy_chunks of fuzzer/smart-chunks.c and copy_children_with_new_offset of
-- fuzzer/afl-fuzz.c. malloc() is a counter: it returns the counter as the next address, and the
-- counter goes up.
use nfuzzer.Base.{ℕ, ◌+◌, ◌-◌, ◌%◌, ◌^◌, ◌≤◌, ◌<◌, ◌≡◌, refl, ap₂, ◌∙◌, arith}
use nfuzzer.Tree.{Tree, null, chunk, chunks}
use nfuzzer.Tree.Shift.{Each}

-- A tree, and the counter after it was made.
pub record Copied : Type 0 where
  pub tree : Tree
  pub free : ℕ

unfoldable pub copy_chunks : Tree → ℕ → Copied
copy_chunks null free = record { tree = null; free = free }
copy_chunks (chunk f next children) free =
    let rest = copy_chunks next (free + 1) in
    let below = copy_chunks children rest.free in
    record { tree = chunk (record f { address = free }) rest.tree below.tree; free = below.free }

-- `(x - old_start_byte) + new_start_byte` on ints.
unfoldable pub moved : ℕ → ℕ → ℕ → ℕ
moved new_start_byte old_start_byte x = (x + 2 ^ 32 - old_start_byte + new_start_byte) % 2 ^ 32

-- The loop of copy_children_with_new_offset: `ret` holds the copies of the siblings so far, the
-- last one first.
unfoldable pub copy_siblings : ℕ → ℕ → Tree → Tree → ℕ → Copied
copy_siblings new_start old_start null ret free = record { tree = ret; free = free }
copy_siblings new_start old_start (chunk f next children) ret free =
    let below = copy_siblings new_start old_start children null free in
    let new = record f {
      address = below.free;
      start_byte = moved new_start old_start f.start_byte;
      end_byte = moved new_start old_start f.end_byte;
    } in
    copy_siblings new_start old_start next (chunk new ret below.tree) (below.free + 1)

unfoldable pub copy_children_with_new_offset : ℕ → ℕ → Tree → ℕ → Copied
copy_children_with_new_offset new_start_byte old_start_byte c free =
    copy_siblings new_start_byte old_start_byte c null free

-- A tree with all addresses forgotten.
unfoldable pub forget : Tree → Tree
forget null = null
forget (chunk f next children) = chunk (record f { address = 0 }) (forget next) (forget children)

-- The addresses from `low` on and below `high`.
abbrev pub IsWithin : ℕ → ℕ → Tree → Type 0
IsWithin low high = Each (λ f. (low ≤ f.address) × (f.address < high))

IsWithin-weaken :
    (c : Tree) (low high low' high' : ℕ)
    → low' ≤ low
    → high ≤ high'
    → IsWithin low high c
    → IsWithin low' high' c
IsWithin-weaken null low high low' high' p q h = tt
IsWithin-weaken (chunk f next children) low high low' high' p q h = (
  (omega (arith, h.0), omega (arith, h.0)),
  IsWithin-weaken next low high low' high' p q h.1,
  IsWithin-weaken children low high low' high' p q h.2,
)

-- The copy is the tree but for the addresses; one address is taken for each chunk, and every chunk
-- of the copy stands at one of those.
pub copy_chunks_lem :
    (c : Tree) (free : ℕ)
    → (forget (copy_chunks c free).tree ≡ forget c)
      × ((copy_chunks c free).free ≡ free + chunks c)
      × IsWithin free (copy_chunks c free).free (copy_chunks c free).tree
unfolding copy_chunks forget chunks
copy_chunks_lem null free = (refl, omega arith, tt)
copy_chunks_lem (chunk f next children) free =
    let rest = copy_chunks next (free + 1) in
    let p = copy_chunks_lem next (free + 1) in
    let q = copy_chunks_lem children rest.free in
    let below = copy_chunks children rest.free in
    (
      ap₂ (chunk (record f { address = 0 })) p.0 q.0,
      omega (arith, p.1, q.1),
      (
        (omega arith, omega (arith, p.1, q.1)),
        IsWithin-weaken rest.tree (free + 1) rest.free free below.free (omega arith)
            (omega (arith, q.1)) p.2,
        IsWithin-weaken below.tree rest.free below.free free below.free (omega (arith, p.1))
            (omega arith) q.2,
      ),
    )

chunks-copy_siblings :
    (new_start old_start : ℕ) (c ret : Tree) (free : ℕ)
    → chunks (copy_siblings new_start old_start c ret free).tree ≡ chunks c + chunks ret
unfolding copy_siblings chunks
chunks-copy_siblings new_start old_start null ret free = omega arith
chunks-copy_siblings new_start old_start (chunk f next children) ret free =
    let below = copy_siblings new_start old_start children null free in
    chunks-copy_siblings new_start old_start next _ (below.free + 1)
    ∙ omega (arith, chunks-copy_siblings new_start old_start children null free)

-- The copy has as many chunks as the tree.
pub chunks-copy_children_with_new_offset :
    (new_start old_start : ℕ) (c : Tree) (free : ℕ)
    → chunks (copy_children_with_new_offset new_start old_start c free).tree ≡ chunks c
unfolding copy_children_with_new_offset chunks
chunks-copy_children_with_new_offset new_start old_start c free =
    chunks-copy_siblings new_start old_start c null free ∙ omega arith
