-- ===== src/Tree/Chosen.antt =====
-- What get_chunk_to_delete() of fuzzer/afl-fuzz.c chooses.
use nfuzzer.Base.{
  ℕ, zero, suc, ◌+◌, ◌^◌, ◌<◌, ◌≡◌, refl, arith, true, ◌&&◌, Option, none, some, List, [], ◌∷◌,
  length, get_elem?, inl, inr, Bool-cases,
}
use nfuzzer.Base.Bytes.{All}
use nfuzzer.Havoc.Blocks.{ur}
use nfuzzer.Tree.{Fields, is_nonneg, is_above}
use nfuzzer.Tree.Search.{
  Node, Deletion, is_known, chunk_len, try_delete, delete_tries, unless_empty, get_chunk_to_delete,
}

-- A chunk, if there is one, that an array holds.
abbrev pub IsIn : List Node → Option Node → Type 0
IsIn ns none = Unit
IsIn ns (some n) = (i : ℕ) × (get_elem? ns i ≡ some n)

-- What is chosen for deletion.
abbrev pub IsDeletable : Deletion → Type 0
IsDeletable d = elim d.target [
  | none ↦ (d.del_from ≡ 0) × (d.del_len ≡ 0)
  | some n ↦
      (n.fields.modifiable ≡ true)
      × (d.del_from ≡ n.fields.start_byte)
      × (n.fields.end_byte + 1 ≡ d.del_from + d.del_len)
      × (0 < d.del_len)
]

-- `int` fields are 32-bit words.
abbrev pub IsWord : Fields → Type 0
IsWord f = (f.start_byte < 2 ^ 32) × (f.end_byte < 2 ^ 32)

known :
    (n : Node)
    → (n.fields.modifiable && is_known n.fields) ≡ true
    → IsWord n.fields
    → (n.fields.modifiable ≡ true)
      × (n.fields.start_byte ≡ n.fields.start_byte)
      × (n.fields.end_byte + 1 ≡ n.fields.start_byte + chunk_len n.fields)
      × (0 < chunk_len n.fields)
unfolding is_known chunk_len is_nonneg is_above
known n e w = ground arith

abbrev IsWordIn : Option Node → Type 0
IsWordIn none = Unit
IsWordIn (some n) = IsWord n.fields

try_delete-IsDeletable :
    (o : Option Node) (d : Deletion) → IsDeletable d → IsWordIn o → IsDeletable (try_delete o d)
unfolding try_delete
try_delete-IsDeletable none d h w = h
try_delete-IsDeletable (some n) d h w =
    elim (Bool-cases (n.fields.modifiable && is_known n.fields)) [
      | inl e ↦ simp e (known n e w)
      | inr e ↦ simp e h
    ]

get_elem?-IsWordIn :
    (ns : List Node) (i : ℕ) → All (λ n. IsWord n.fields) ns → IsWordIn (get_elem? ns i)
get_elem?-IsWordIn [] i h = tt
get_elem?-IsWordIn (m ∷ ns) zero h = h.0
get_elem?-IsWordIn (m ∷ ns) (suc i) h = get_elem?-IsWordIn ns i h.1

delete_tries-IsDeletable :
    (ns : List Node) (rs : List ℕ)
    → All (λ n. IsWord n.fields) ns
    → IsDeletable (delete_tries ns rs)
unfolding delete_tries
delete_tries-IsDeletable ns [] w = (refl, refl)
delete_tries-IsDeletable ns (r ∷ rs) w =
    try_delete-IsDeletable _ _ (delete_tries-IsDeletable ns rs w)
      (get_elem?-IsWordIn ns (ur r (length ns)) w)

-- The chunk that is tried is one of the array.
try_delete-IsIn :
    (ns : List Node) (i : ℕ) (d : Deletion)
    → IsIn ns d.target
    → IsIn ns (try_delete (get_elem? ns i) d).target
unfolding try_delete
try_delete-IsIn ns i d h = choose (get_elem? ns i) refl
  where
    choose : (o : Option Node) → get_elem? ns i ≡ o → IsIn ns (try_delete o d).target
    choose none e = h
    choose (some n) e = elim (Bool-cases (n.fields.modifiable && is_known n.fields)) [
      | inl t ↦ rw t (i, e)
      | inr t ↦ rw t h
    ]

delete_tries-IsIn : (ns : List Node) (rs : List ℕ) → IsIn ns (delete_tries ns rs).target
unfolding delete_tries
delete_tries-IsIn ns [] = tt
delete_tries-IsIn ns (r ∷ rs) = try_delete-IsIn ns (ur r (length ns)) _ (delete_tries-IsIn ns rs)

-- What comes of the choice: on an empty array the process divides by zero.
abbrev pub IsChoice : List Node → Option Deletion → Type 0
IsChoice ns none = ns ≡ []
IsChoice ns (some d) = (0 < length ns) × IsIn ns d.target × IsDeletable d

-- If the array is empty the process divides by zero, and only then. Otherwise, whatever the random
-- numbers are, a chunk that is chosen for deletion is one of the array and modifiable, `del_from` is
-- its first byte, `del_len` is above 0 and ends the range just after its last byte; if none is
-- chosen, both are 0. The positions of the chunks are 32-bit words.
pub get_chunk_to_delete_lem :
    (chunks_array : List Node) (r0 r1 r2 : ℕ)
    → All (λ n. IsWord n.fields) chunks_array
    → IsChoice chunks_array (get_chunk_to_delete chunks_array r0 r1 r2)
unfolding get_chunk_to_delete unless_empty
get_chunk_to_delete_lem [] r0 r1 r2 w = refl
get_chunk_to_delete_lem (n ∷ ns) r0 r1 r2 w =
    let rs = r0 ∷ r1 ∷ r2 ∷ [] in
    (omega arith, delete_tries-IsIn (n ∷ ns) rs, delete_tries-IsDeletable (n ∷ ns) rs w)
