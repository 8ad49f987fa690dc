-- ===== src/Tree/Found.antt =====
-- What the searches of Tree.Search find.
use nfuzzer.Base.{
  ℕ, ◌+◌, ◌^◌, ◌≤◌, ◌≡◌, refl, ap, sym, ◌-◌, ◌==◌, leb, false, ◌∙◌, arith, Bool, true, not, ◌&&◌,
  ◌||◌, if◌then◌else◌, ltb, List, [], ◌∷◌, ◌++◌, length, inl, inr, Bool-cases, length-append,
}
use mathlib.Core.List.{append-nil, append_assoc}
use nfuzzer.Base.Bytes.{All, All-append}
use nfuzzer.Tree.{Tree, null, chunk, is_nonneg, is_above}
use nfuzzer.Tree.Search.{
  Node, Found, Arrays, is_wanted, get_chunks_of_type_recursively, get_chunks_of_type,
  add_chunk_to_array, linearize_chunks_recursively, linearize_chunks, chunk_len, has_children,
  max_chunks, add_siblings, add_levels, get_modifiable_chunks,
}

-- The elements that pass a test.
unfoldable pub select : (Node → Bool) → List Node → List Node
select test [] = []
select test (n ∷ ns) = let rest = select test ns in if test n then n ∷ rest else rest

select-append :
    (test : Node → Bool) (xs ys : List Node)
    → select test (xs ++ ys) ≡ select test xs ++ select test ys
unfolding select
select-append test [] ys = refl
select-append test (x ∷ xs) ys = elim (Bool-cases (test x)) [
  | inl e ↦ rw e (ap (λ t. x ∷ t) (select-append test xs ys))
  | inr e ↦ rw e (select-append test xs ys)
]

-- The chunks of a tree, each once: those of the later siblings, the chunk, and those below it.
unfoldable pub nodes : Tree → List Node
nodes null = []
nodes (chunk f next children) =
    nodes next ++ (record { fields = f; children = children } ∷ nodes children)

-- A chunk of the type, whose first byte is not after its last one, of at most `len` bytes. As an int,
-- the last position is not negative, and neither is the size.
abbrev pub is_of_type : ℕ → ℕ → Node → Bool
is_of_type type len n =
    n.fields.type == type
    && leb n.fields.start_byte n.fields.end_byte
    && ltb n.fields.end_byte (2 ^ 31)
    && ltb (n.fields.end_byte + 1 - n.fields.start_byte) (2 ^ 31)
    && leb (n.fields.end_byte + 1 - n.fields.start_byte) len

is_wanted_lem : (type len : ℕ) (n : Node) → is_wanted type len n.fields ≡ is_of_type type len n
unfolding is_wanted chunk_len is_nonneg is_above
is_wanted_lem type len n = ground arith

abbrev Adds : List Node → Found → Found → Type 0
Adds ns tail r = (r.list ≡ ns ++ tail.list) × (r.number ≡ length ns + tail.number)

Adds-push :
    (test : Node → Bool) (n : Node) (b : Bool) (ns : List Node) (tail r : Found)
    → test n ≡ b
    → Adds (select test ns) tail r
    → Adds
        (select test (n ∷ ns))
        tail
        (if b then record { list = n ∷ r.list; number = r.number + 1 } else r)
unfolding select
Adds-push test n true ns tail r e h = rw e (ap (λ t. n ∷ t) h.0, omega (arith, h.1))
Adds-push test n false ns tail r e h = rw e h

get_chunks-Adds :
    (c : Tree) (type len : ℕ) (tail : Found)
    → Adds
        (select (is_of_type type len) (nodes c))
        tail
        (get_chunks_of_type_recursively c type len tail)
unfolding get_chunks_of_type_recursively nodes select
get_chunks-Adds null type len tail = (refl, omega arith)
get_chunks-Adds (chunk f next children) type len tail =
    let test = is_of_type type len in
    let n : Node = record { fields = f; children = children } in
    let below = get_chunks-Adds children type len tail in
    let own =
      Adds-push test n (is_wanted type len f) (nodes children) tail _
        (sym (is_wanted_lem type len n)) below in
    let after = get_chunks-Adds next type len _ in
    let split = select-append test (nodes next) (n ∷ nodes children) in
    (
      after.0
          ∙ ap (λ (t : List Node). select test (nodes next) ++ t) own.0
          ∙ sym
              (append_assoc (select test (nodes next)) (select test (n ∷ nodes children)) tail.list)
          ∙ ap (λ (t : List Node). t ++ tail.list) (sym split),
      omega (
        arith,
        after.1,
        own.1,
        ap length split,
        length-append (select test (nodes next)) (select test (n ∷ nodes children)),
      ),
    )

-- The work list is the chunks of the tree that are of the type, with a last byte not before the
-- first and at most `len` bytes, the last byte and the size being positive ints: each of them once,
-- later siblings first and a chunk before those below it. `number` is the length of the list.
pub get_chunks_of_type_lem :
    (c : Tree) (type len : ℕ)
    → ((get_chunks_of_type c type len).list ≡ select (is_of_type type len) (nodes c))
      × ((get_chunks_of_type c type len).number ≡ length (get_chunks_of_type c type len).list)
unfolding get_chunks_of_type
get_chunks_of_type_lem c type len =
    let start : Found = record { list = []; number = 0 } in
    let h = get_chunks-Adds c type len start in
    let e = h.0 ∙ append-nil (select (is_of_type type len) (nodes c)) in
    (e, omega (arith, h.1, ap length e))

-- The chunks whose depth passes a test, `depth` being that of the siblings: those below a chunk,
-- the chunk itself, and those of its later siblings.
unfoldable pub at_levels : (ℕ → Bool) → Tree → ℕ → List Node
at_levels test null depth = []
at_levels test (chunk f next children) depth =
    let below = at_levels test children (depth + 1) in
    let rest = at_levels test next depth in
    below ++ ((if test depth then record { fields = f; children = children } ∷ [] else []) ++ rest)

-- An array holds what it held, and what is added behind it.
append_after :
    (old below own rest new mid r : List Node)
    → mid ≡ old ++ below
    → new ≡ mid ++ own
    → r ≡ new ++ rest
    → r ≡ old ++ (below ++ (own ++ rest))
append_after old below own rest new mid r p q t =
    t
    ∙ ap (λ (l : List Node). l ++ rest) (q ∙ ap (λ (l : List Node). l ++ own) p)
    ∙ append_assoc (old ++ below) own rest
    ∙ append_assoc old below (own ++ rest)

-- Which of the arrays takes a chunk.
abbrev IsSorted : ℕ → ℕ → Node → Arrays → Arrays → Type 0
IsSorted level depth n a r =
    (r.first ≡ a.first ++ (if depth == level then n ∷ [] else []))
    × (r.second ≡ a.second ++ (if depth == level + 1 then n ∷ [] else []))
    × (r.deeper ≡ a.deeper ++ (if ltb (level + 1) depth then n ∷ [] else []))

add_chunk-IsSorted :
    (level depth : ℕ) (n : Node) (a : Arrays)
    → IsSorted level depth n a (add_chunk_to_array level (level + 1) depth n a)
unfolding add_chunk_to_array
add_chunk-IsSorted level depth n a =
    let x = sym (append-nil a.first) in
    let y = sym (append-nil a.second) in
    let z = sym (append-nil a.deeper) in
    elim (Bool-cases (depth == level)) [
      | inl p ↦
          let q : (depth == level + 1) ≡ false = ground (arith, p) in
          let r : ltb (level + 1) depth ≡ false = ground (arith, p) in rw (p, q, r) (refl, y, z)
      | inr p ↦ elim (Bool-cases (depth == level + 1)) [
        | inl q ↦
            let r : ltb (level + 1) depth ≡ false = ground (arith, q) in rw (p, q, r) (x, refl, z)
        | inr q ↦ elim (Bool-cases (ltb (level + 1) depth)) [
          | inl r ↦ rw (p, q, r) (x, y, refl)
          | inr r ↦ rw (p, q, r) (x, y, z)
        ]
      ]
    ]

-- The arrays after those of a tree, from its depth on.
abbrev pub IsLinearized : ℕ → Tree → ℕ → Arrays → Arrays → Type 0
IsLinearized level c depth a r =
    (r.first ≡ a.first ++ at_levels (λ d. d == level) c depth)
    × (r.second ≡ a.second ++ at_levels (λ d. d == level + 1) c depth)
    × (r.deeper ≡ a.deeper ++ at_levels (λ d. ltb (level + 1) d) c depth)

linearize-IsLinearized :
    (level : ℕ) (c : Tree) (a : Arrays) (depth : ℕ)
    → IsLinearized level c depth a (linearize_chunks_recursively level (level + 1) c a depth)
unfolding linearize_chunks_recursively at_levels
linearize-IsLinearized level null a depth =
    (sym (append-nil a.first), sym (append-nil a.second), sym (append-nil a.deeper))
linearize-IsLinearized level (chunk f next children) a depth =
    let n : Node = record { fields = f; children = children } in
    let mid = linearize_chunks_recursively level (level + 1) children a (depth + 1) in
    let below = linearize-IsLinearized level children a (depth + 1) in
    let own = add_chunk-IsSorted level depth n mid in
    let rest =
      linearize-IsLinearized level next (add_chunk_to_array level (level + 1) depth n mid) depth in
    (
      append_after _ _ _ _ _ _ _ below.0 own.0 rest.0,
      append_after _ _ _ _ _ _ _ below.1 own.1 rest.1,
      append_after _ _ _ _ _ _ _ below.2 own.2 rest.2,
    )

-- With `level` 0, or 1 with Peach models and 3 in composite mode too: the first array holds the
-- chunks at depth `level`, the second those one level below, and the third all those further down,
-- each of them once and behind the chunks below it; the root is at depth 0.
pub linearize_chunks_lem :
    (is_peach composite_mode : Bool) (c : Tree)
    → let level : ℕ = if is_peach then (if composite_mode then 3 else 1) else 0 in
      let r = linearize_chunks is_peach composite_mode c in
      (r.first ≡ at_levels (λ d. d == level) c 0)
      × (r.second ≡ at_levels (λ d. d == level + 1) c 0)
      × (r.deeper ≡ at_levels (λ d. ltb (level + 1) d) c 0)
unfolding linearize_chunks
linearize_chunks_lem is_peach composite_mode c =
    linearize-IsLinearized (if is_peach then (if composite_mode then 3 else 1) else 0) c
      (record { first = []; second = []; deeper = [] }) 0

add_siblings-bounded :
    (only_leaf : Bool) (c : Tree) (parr : List Node)
    → length parr ≤ max_chunks
    → All (λ n. n.fields.modifiable ≡ true) parr
    → (length (add_siblings only_leaf c parr) ≤ max_chunks)
      × All (λ n. n.fields.modifiable ≡ true) (add_siblings only_leaf c parr)
unfolding add_siblings
add_siblings-bounded only_leaf null parr h m = (h, m)
add_siblings-bounded only_leaf (chunk f next children) parr h m =
    let n : Node = record { fields = f; children = children } in
    let test =
      f.modifiable
      && (not (has_children children) || not only_leaf)
      && ltb (length parr) max_chunks in
    elim (Bool-cases test) [
      | inl e ↦ simp e (
          add_siblings-bounded only_leaf next (parr ++ (n ∷ []))
            (ground (arith, length-append parr (n ∷ [])))
            (All-append _ parr (n ∷ []) m (ground arith, tt)))
      | inr e ↦ simp e (add_siblings-bounded only_leaf next parr h m)
    ]

add_levels-bounded :
    (only_leaf : Bool) (c : Tree) (parr : List Node)
    → length parr ≤ max_chunks
    → All (λ n. n.fields.modifiable ≡ true) parr
    → (length (add_levels only_leaf c parr) ≤ max_chunks)
      × All (λ n. n.fields.modifiable ≡ true) (add_levels only_leaf c parr)
unfolding add_levels
add_levels-bounded only_leaf null parr h m = (h, m)
add_levels-bounded only_leaf (chunk f next children) parr h m =
    let s = add_siblings-bounded only_leaf (chunk f next children) parr h m in
    add_levels-bounded only_leaf children _ s.0 s.1

-- Starting from an empty array, at most MAX_CHUNKS chunks are stored, and each is modifiable.
pub get_modifiable_chunks_lem :
    (n : Node) (only_leaf : Bool)
    → (length (get_modifiable_chunks n [] only_leaf) ≤ max_chunks)
      × All (λ m. m.fields.modifiable ≡ true) (get_modifiable_chunks n [] only_leaf)
unfolding get_modifiable_chunks
get_modifiable_chunks_lem n only_leaf = add_levels-bounded only_leaf n.children [] (omega arith) tt
