-- ===== src/Tree/Tests.antt =====
-- Chunk trees on concrete values.
use nfuzzer.Base.{
  ℕ, ◌+◌, ◌-◌, ◌≤◌, ◌≡◌, arith, true, false, some, inr, inl, ltb, ◌==◌, List, [], ◌∷◌, length,
}
use nfuzzer.Base.Bytes.{All}
use nfuzzer.Tree.{
  Fields, Tree, null, chunk, chunks, reduce_byte_positions,
  increase_byte_positions_except_target_children, search_and_destroy_chunk,
}
use nfuzzer.Tree.Shift.{IsOpened, increase_byte_positions-IsOpened}
use nfuzzer.Tree.Destroy.{IsFree, search_and_destroy_chunk_lem, search_and_destroy_chunk-twice}
use nfuzzer.Tree.Copy.{copy_chunks, forget, IsWithin, copy_chunks_lem}
use nfuzzer.Tree.Search.{
  Node, get_chunks_of_type, linearize_chunks, get_chunk_to_delete, max_chunks,
  get_modifiable_chunks,
}
use nfuzzer.Tree.Found.{
  select, nodes, is_of_type, get_chunks_of_type_lem, at_levels, linearize_chunks_lem,
  get_modifiable_chunks_lem,
}
use nfuzzer.Tree.Chosen.{IsChoice, get_chunk_to_delete_lem}
use nfuzzer.Tree.Grow.{get_chunks}
use nfuzzer.Tree.Reading.{HasRead, get_chunks_lem}

-- A chunk at an address, of type 7, with its first and last byte.
abbrev part : ℕ → ℕ → ℕ → Fields
part p first last = record {
  address = p;
  id = 70 + p;
  type = 7;
  start_byte = first;
  end_byte = last;
  modifiable = true;
}

-- A file of ten bytes with two parts, the first of them with a part of its own.
abbrev parts : Tree
parts = chunk (part 2 0 4) (chunk (part 4 5 9) null null) (chunk (part 3 1 2) null null)

abbrev file : Tree
file = chunk (part 1 0 9) null parts

-- The bytes of the file; two more are put in behind the part at 2, which ends with byte 4.
abbrev bytes : List ℕ
bytes = 10 ∷ 11 ∷ 12 ∷ 13 ∷ 14 ∷ 15 ∷ 16 ∷ 17 ∷ 18 ∷ 19 ∷ []

abbrev gap : List ℕ
gap = 77 ∷ 78 ∷ []

increase_byte_positions-IsOpened_example :
    IsOpened 2 0 4 gap bytes file
      (increase_byte_positions_except_target_children file 2 0 (length gap))
increase_byte_positions-IsOpened_example =
    increase_byte_positions-IsOpened 0 4 gap bytes (omega arith) (omega arith) (omega arith) file 2
      (
        inr (inl (omega arith, omega arith, omega arith)),
        tt,
        (
          inr (inl (omega arith, omega arith, omega arith)),
          (inr (inr (inl (omega arith, omega arith, omega arith))), tt, tt),
          tt,
        ),
      )

search_and_destroy_chunk_lem_example :
    (rest : Tree) × (search_and_destroy_chunk file 2 0 5 ≡ some rest)
    × IsFree 2 rest
    × (chunks rest ≤ chunks file)
search_and_destroy_chunk_lem_example = search_and_destroy_chunk_lem file 2 0 5

search_and_destroy_chunk-twice_example :
    search_and_destroy_chunk parts 2 0 2
    ≡ some (reduce_byte_positions (reduce_byte_positions (chunk (part 4 5 9) null null) 0 2) 0 2)
search_and_destroy_chunk-twice_example =
    search_and_destroy_chunk-twice (part 2 0 4) (chunk (part 4 5 9) null null)
      (chunk (part 3 1 2) null null) 0 2 ((λ e. omega arith), tt, tt)

copy_chunks_lem_example :
    (forget (copy_chunks file 50).tree ≡ forget file)
    × ((copy_chunks file 50).free ≡ 50 + chunks file)
    × IsWithin 50 (copy_chunks file 50).free (copy_chunks file 50).tree
copy_chunks_lem_example = copy_chunks_lem file 50

get_chunks_of_type_lem_example :
    ((get_chunks_of_type file 7 5).list ≡ select (is_of_type 7 5) (nodes file))
    × ((get_chunks_of_type file 7 5).number ≡ length (get_chunks_of_type file 7 5).list)
get_chunks_of_type_lem_example = get_chunks_of_type_lem file 7 5

linearize_chunks_lem_example :
    ((linearize_chunks true false file).first ≡ at_levels (λ d. d == 1) file 0)
    × ((linearize_chunks true false file).second ≡ at_levels (λ d. d == 2) file 0)
    × ((linearize_chunks true false file).deeper ≡ at_levels (λ d. ltb 2 d) file 0)
linearize_chunks_lem_example = linearize_chunks_lem true false file

abbrev two_nodes : List Node
two_nodes =
    record { fields = part 2 0 4; children = null }
    ∷ record { fields = part 4 5 9; children = null }
    ∷ []

get_chunk_to_delete_lem_example : IsChoice two_nodes (get_chunk_to_delete two_nodes 3 4 5)
get_chunk_to_delete_lem_example =
    get_chunk_to_delete_lem two_nodes 3 4 5
      ((omega arith, omega arith), ((omega arith, omega arith), tt))

abbrev root : Node
root = record { fields = part 1 0 9; children = parts }

get_modifiable_chunks_lem_example :
    (length (get_modifiable_chunks root [] true) ≤ max_chunks)
    × All (λ m. m.fields.modifiable ≡ true) (get_modifiable_chunks root [] true)
get_modifiable_chunks_lem_example = get_modifiable_chunks_lem root true

-- "0,9,a" and "0,4,a~b_1,Enabled"
abbrev lines : List (List ℕ)
lines =
    (48 ∷ 44 ∷ 57 ∷ 44 ∷ 97 ∷ 10 ∷ [])
    ∷ (48 ∷ 44 ∷ 52 ∷ 44 ∷ 97 ∷ 126 ∷ 98 ∷ 95 ∷ 49 ∷ 44 ∷ 69 ∷ 110 ∷ 97 ∷ 98 ∷ 108 ∷ 101 ∷ 100 ∷ 10
        ∷ [])
    ∷ []

-- atoi() on a digit.
abbrev one_digit : List ℕ → ℕ
one_digit [] = 0
one_digit (c ∷ cs) = c - 48

get_chunks_lem_example : HasRead lines (get_chunks one_digit lines 1)
get_chunks_lem_example = get_chunks_lem one_digit lines 1
