-- ===== src/Tree/Grow.antt =====
-- add_path of fuzzer/smart-chunks.c: a line of a chunk file is added to the tree.
use nfuzzer.Base.{
  ℕ, zero, suc, ◌+◌, ◌-◌, ◌^◌, Bool, true, false, if◌then◌else◌, ◌==◌, Option, none, some, List, [],
  ◌∷◌, length, drop, ◌>>=◌,
}
use nfuzzer.Tree.{Fields, Tree, null, chunk}
use nfuzzer.Tree.Search.{Node}
use nfuzzer.Tree.Paths.{Line, Segment, next_lower_chunk, split_line_on_comma}
use nfuzzer.Tree.Copy.{Copied}

-- A chunk that malloc() has just given, at `free`; its positions are -1.
unfoldable pub new_fields : ℕ → Segment → Line → Fields
new_fields free s line = record {
  address = free;
  id = s.hash;
  type = s.type_hash;
  start_byte = 2 ^ 32 - 1;
  end_byte = 2 ^ 32 - 1;
  modifiable = line.modifiable;
}

-- `if (!current_chunk->modifiable) current_chunk->modifiable = modifiable;`
unfoldable pub enable : Line → Fields → Fields
enable line f = record f { modifiable = if f.modifiable then f.modifiable else line.modifiable }

-- The first of the siblings with the id.
unfoldable pub find_child : ℕ → Tree → Option Node
find_child h null = none
find_child h (chunk f next children) =
    let rest = find_child h next in
    if f.id == h then some (record { fields = f; children = children }) else rest

-- The siblings with the first that has the id replaced.
unfoldable pub put_child : ℕ → Node → Tree → Tree
put_child h n null = null
put_child h n (chunk f next children) =
    let rest = put_child h n next in
    if f.id == h then chunk n.fields next n.children else chunk f rest children

-- The current chunk, and the counter of malloc().
pub record Grown : Type 0 where
  pub node : Node
  pub free : ℕ

-- The loop of add_path at the current chunk, with fuel: `path` is what `next` points to. `none`
-- when the fuel is used up.
unfoldable pub grow : ℕ → Line → (path : List ℕ) (non_last : Bool) → Node → ℕ → Option Grown
grow fuel line path false n free = some (record {
  node = record {
    fields = record n.fields { start_byte = line.start_byte; end_byte = line.end_byte };
    children = n.children;
  };
  free = free;
})
grow zero line path true n free = none
grow (suc fuel) line path true n free =
    let s = next_lower_chunk path in
    let next = drop (s.length + 1) path in
    elim (s.length == 0) [
      | true ↦ some (record { node = n; free = free })
      | false ↦ elim (find_child s.hash n.children) [
        | some c ↦ do
          let current : Node = record { fields = enable line c.fields; children = c.children }
          r ← grow fuel line next s.non_last current free
          some (record {
            node = record { fields = n.fields; children = put_child s.hash r.node n.children };
            free = r.free;
          })
        | none ↦ do
          let current : Node = record {
            fields = enable line (new_fields free s line);
            children = null;
          }
          r ← grow fuel line next s.non_last current (free + 1)
          some (record {
            node = record {
              fields = n.fields;
              children = chunk r.node.fields n.children r.node.children;
            };
            free = r.free;
          })
      ]
    ]

-- add_path, by the tree that it finds: an empty tree gets a root; if the root has another id, a
-- new chunk is put right after it.
unfoldable pub add_path_at : Tree → Line → ℕ → Option Copied
add_path_at null line free =
    let s = next_lower_chunk line.path in
    elim (s.length == 0) [
      | true ↦ some (record { tree = null; free = free })
      | false ↦ do
        let current : Node = record { fields = new_fields free s line; children = null }
        r ←
            grow (length line.path + 1) line (drop (s.length + 1) line.path) s.non_last current
              (free + 1)
        some (record { tree = chunk r.node.fields null r.node.children; free = r.free })
    ]
add_path_at (chunk f next children) line free =
    let s = next_lower_chunk line.path in
    let fuel = length line.path + 1 in
    let path = drop (s.length + 1) line.path in
    elim (s.length == 0) [
      | true ↦ some (record { tree = chunk f next children; free = free })
      | false ↦ elim (f.id == s.hash) [
        | true ↦ do
          let current : Node = record { fields = enable line f; children = children }
          r ← grow fuel line path s.non_last current free
          some (record { tree = chunk r.node.fields next r.node.children; free = r.free })
        | false ↦ do
          let current : Node = record {
            fields = enable line (new_fields free s line);
            children = null;
          }
          r ← grow fuel line path s.non_last current (free + 1)
          some (record {
            tree = chunk f (chunk r.node.fields next r.node.children) children;
            free = r.free;
          })
      ]
    ]

-- How reading ends: with a tree, with an access outside a buffer, or with the fuel used up.
pub data Reading : Type 0 where
  read_to : Copied → Reading
  overrun : Reading
  unfinished : Reading

unfoldable pub grown_to : Option Copied → Reading
grown_to none = unfinished
grown_to (some r) = read_to r

unfoldable pub and_then : Reading → (Copied → Reading) → Reading
and_then (read_to r) f = f r
and_then overrun f = overrun
and_then unfinished f = unfinished

unfoldable pub add_path : (List ℕ → ℕ) → Tree → List ℕ → ℕ → Reading
add_path atoi tree line free = elim (split_line_on_comma atoi line) [
  | none ↦ overrun
  | some l ↦ grown_to (add_path_at tree l free)
]

-- The lines of a chunk file, one after the other, as get_chunks reads them.
unfoldable pub add_lines : (List ℕ → ℕ) → Tree → List (List ℕ) → ℕ → Reading
add_lines atoi tree [] free = read_to (record { tree = tree; free = free })
add_lines atoi tree (line ∷ lines) free =
    and_then (add_path atoi tree line free) (λ r. add_lines atoi r.tree lines r.free)

unfoldable pub get_chunks : (List ℕ → ℕ) → List (List ℕ) → ℕ → Reading
get_chunks atoi lines free = add_lines atoi null lines free
