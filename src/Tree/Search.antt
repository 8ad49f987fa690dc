-- ===== src/Tree/Search.antt =====
-- The searches in chunk trees of fuzzer/afl-fuzz.c: get_chunks_of_type,
-- get_chunk_of_type_with_children, linearize_chunks, get_chunk_to_delete, get_target_to_splice,
-- get_parent_to_insert_child and get_modifiable_chunks. Arrays and work lists are lists; malloc()
-- and realloc() do not fail.
use nfuzzer.Base.{
  ℕ, ◌+◌, ◌-◌, ◌%◌, ◌^◌, Bool, true, false, not, ◌&&◌, ◌||◌, if◌then◌else◌, ltb, leb, ◌==◌, Option,
  none, some, List, [], ◌∷◌, ◌++◌, length, get_elem?,
}
use nfuzzer.Havoc.Blocks.{ur}
use nfuzzer.Tree.{Fields, Tree, null, chunk, is_nonneg, is_above}

-- A pointer to a chunk: its fields and its children.
pub record Node : Type 0 where
  pub fields : Fields
  pub children : Tree

unfoldable pub has_children : Tree → Bool
has_children null = false
has_children (chunk f next children) = true

-- `end_byte - start_byte + 1`
unfoldable pub chunk_len : Fields → ℕ
chunk_len f = (f.end_byte + 2 ^ 32 - f.start_byte + 1) % 2 ^ 32

-- The test of get_chunks_of_type_recursively.
unfoldable pub is_wanted : ℕ → ℕ → Fields → Bool
is_wanted type len f =
    is_nonneg f.start_byte
    && is_nonneg f.end_byte
    && is_above (chunk_len f) 0
    && leb (chunk_len f) len
    && f.type == type

-- The work list and `*number`.
pub record Found : Type 0 where
  pub list : List Node
  pub number : ℕ

unfoldable pub get_chunks_of_type_recursively : Tree → ℕ → ℕ → Found → Found
get_chunks_of_type_recursively null type len tail = tail
get_chunks_of_type_recursively (chunk f next children) type len tail =
    let tmp = get_chunks_of_type_recursively children type len tail in
    let node : Node = record { fields = f; children = children } in
    get_chunks_of_type_recursively next type len (
      if is_wanted type len f
      then record { list = node ∷ tmp.list; number = tmp.number + 1 }
      else tmp)

unfoldable pub get_chunks_of_type : Tree → ℕ → ℕ → Found
get_chunks_of_type c type len =
    get_chunks_of_type_recursively c type len (record { list = []; number = 0 })

unfoldable pub or_else : Option Node → Option Node → Option Node
or_else none d = d
or_else (some n) d = some n

unfoldable pub get_chunk_of_type_with_children : Tree → ℕ → Option Node
get_chunk_of_type_with_children null type = none
get_chunk_of_type_with_children (chunk f next children) type =
    let node : Node = record { fields = f; children = children } in
    let deeper =
      or_else (get_chunk_of_type_with_children next type)
        (get_chunk_of_type_with_children children type) in
    if f.type == type && has_children children then some node else deeper

-- The three arrays of linearize_chunks.
pub record Arrays : Type 0 where
  pub first : List Node
  pub second : List Node
  pub deeper : List Node

-- add_chunk_to_array, for the array of the chunk's depth.
unfoldable pub add_chunk_to_array : ℕ → ℕ → ℕ → Node → Arrays → Arrays
add_chunk_to_array first_level second_level depth n a =
    if depth == first_level
    then record a { first = a.first ++ (n ∷ []) }
    else (if depth == second_level
        then record a { second = a.second ++ (n ∷ []) }
        else (if ltb second_level depth then record a { deeper = a.deeper ++ (n ∷ []) } else a))

unfoldable pub linearize_chunks_recursively : ℕ → ℕ → Tree → Arrays → ℕ → Arrays
linearize_chunks_recursively first_level second_level null a depth = a
linearize_chunks_recursively first_level second_level (chunk f next children) a depth =
    let below = linearize_chunks_recursively first_level second_level children a (depth + 1) in
    let node : Node = record { fields = f; children = children } in
    linearize_chunks_recursively first_level second_level next
      (add_chunk_to_array first_level second_level depth node below) depth

-- `is_peach` is `model_type == MODEL_PEACH`.
unfoldable pub linearize_chunks : (is_peach composite_mode : Bool) → Tree → Arrays
linearize_chunks is_peach composite_mode c =
    let first_level = if is_peach then (if composite_mode then 3 else 1) else 0 in
    linearize_chunks_recursively first_level (first_level + 1) c
      (record { first = []; second = []; deeper = [] }) 0

-- `start_byte >= 0 && end_byte >= start_byte`
unfoldable pub is_known : Fields → Bool
is_known f =
    is_nonneg f.start_byte && (is_above f.end_byte f.start_byte || f.end_byte == f.start_byte)

-- The chunk that was chosen, with `*del_from` and `*del_len`.
pub record Deletion : Type 0 where
  pub target : Option Node
  pub del_from : ℕ
  pub del_len : ℕ

unfoldable pub try_delete : Option Node → Deletion → Deletion
try_delete none otherwise = otherwise
try_delete (some n) otherwise =
    if n.fields.modifiable && is_known n.fields
    then record { target = some n; del_from = n.fields.start_byte; del_len = chunk_len n.fields }
    else otherwise

-- The list holds what `random()` returns at each of the tries that are left.
unfoldable pub delete_tries : List Node → List ℕ → Deletion
delete_tries chunks_array [] = record { target = none; del_from = 0; del_len = 0 }
delete_tries chunks_array (r ∷ rs) =
    let rest = delete_tries chunks_array rs in
    try_delete (get_elem? chunks_array (ur r (length chunks_array))) rest

-- UR() divides by the number of chunks: on an empty array the process dies, which is `none`.
unfoldable pub unless_empty {ℓ} : {A : Type ℓ} → List Node → A → Option A
unless_empty [] a = none
unless_empty (n ∷ ns) a = some a

unfoldable pub get_chunk_to_delete : List Node → ℕ → ℕ → ℕ → Option Deletion
get_chunk_to_delete chunks_array r0 r1 r2 =
    unless_empty chunks_array (delete_tries chunks_array (r0 ∷ r1 ∷ r2 ∷ []))

-- The chunk that was chosen, with `*target_start_byte`, `*target_len` and `*type`. A failed try
-- leaves its chunk and its start byte behind.
pub record Splice : Type 0 where
  pub target : Option Node
  pub target_start_byte : ℕ
  pub target_len : ℕ
  pub type : ℕ

unfoldable pub failed_try : Option Node → Splice
failed_try none = record { target = none; target_start_byte = 0; target_len = 0; type = 0 }
failed_try (some n) = record {
  target = some n;
  target_start_byte = n.fields.start_byte;
  target_len = 0;
  type = 0;
}

unfoldable pub good_try : Node → Splice
good_try n = record {
  target = some n;
  target_start_byte = n.fields.start_byte;
  target_len = chunk_len n.fields;
  type = n.fields.type;
}

unfoldable pub splice_try : (Node → Bool) → Option Node → Splice → Splice
splice_try test none rest = rest
splice_try test (some n) rest = if test n then good_try n else rest

-- The tries, the last one's chunk being what is returned when none is accepted.
unfoldable pub splice_tries : (Node → Bool) → List Node → List ℕ → Splice → Splice
splice_tries test chunks_array [] last = last
splice_tries test chunks_array (r ∷ rs) last =
    let tried = get_elem? chunks_array (ur r (length chunks_array)) in
    splice_try test tried (splice_tries test chunks_array rs (failed_try tried))

unfoldable pub get_target_to_splice : List Node → ℕ → ℕ → ℕ → Option Splice
get_target_to_splice chunks_array r0 r1 r2 = unless_empty chunks_array (
    splice_tries (λ n. n.fields.modifiable && is_known n.fields) chunks_array (r0 ∷ r1 ∷ r2 ∷ [])
      (failed_try none))

unfoldable pub get_parent_to_insert_child : List Node → ℕ → ℕ → ℕ → Option Splice
get_parent_to_insert_child chunks_array r0 r1 r2 = unless_empty chunks_array (
    splice_tries (λ n. is_known n.fields && has_children n.children) chunks_array
      (r0 ∷ r1 ∷ r2 ∷ []) (failed_try none))

-- MAX_CHUNKS
abbrev pub max_chunks : ℕ
max_chunks = 128

-- The siblings from `q` on, with what `parr` holds; `*cnt` is its length.
unfoldable pub add_siblings : Bool → Tree → List Node → List Node
add_siblings only_leaf null parr = parr
add_siblings only_leaf (chunk f next children) parr =
    let node : Node = record { fields = f; children = children } in
    add_siblings only_leaf next (
      if f.modifiable
        && (not (has_children children) || not only_leaf)
        && ltb (length parr) max_chunks
      then parr ++ (node ∷ [])
      else parr)

-- The loop over `p`: the siblings of `p`, then those of its first child.
unfoldable pub add_levels : Bool → Tree → List Node → List Node
add_levels only_leaf null parr = parr
add_levels only_leaf (chunk f next children) parr =
    add_levels only_leaf children (add_siblings only_leaf (chunk f next children) parr)

unfoldable pub get_modifiable_chunks : Node → List Node → Bool → List Node
get_modifiable_chunks n parr only_leaf = add_levels only_leaf n.children parr
