-- ===== src/Smart.antt =====
-- The structure-aware mutations of fuzzer/afl-fuzz.c: havoc(), intelli_havoc() and delete_chunk().
-- `out_buf` is a list of all the bytes that are allocated, of which the first `temp_len` are the
-- file; a read or write outside it is a fault. Logging is left out.
use nfuzzer.Base.{
  ℕ, zero, suc, ◌+◌, ◌-◌, ◌*◌, ◌%◌, ◌^◌, Bool, true, false, ltb, ◌&&◌, ◌==◌, if◌then◌else◌, List,
  [], ◌∷◌, length, replicate, Option, none, some,
}
use nfuzzer.Havoc.Blocks.{blk_xl}
use nfuzzer.Stages.Extras.{max_file}
use nfuzzer.Tree.{Fields, Tree, null, chunk, is_above, search_and_destroy_chunk}
use nfuzzer.Tree.Search.{Node, chunk_len, get_modifiable_chunks}
use nfuzzer.Tree.Traverse.{pre_order_traverse}
use nfuzzer.Mutate.Draw.{Source, Draw, give, fault, ◌>>=◌, draw}
use nfuzzer.Mutate.Memory.{read, write, index, found}
use nfuzzer.Mutate.Tweaks.{
  flip_random_bit, interesting_byte, interesting_word16, interesting_word32, subtract_from_byte,
  add_to_byte, subtract_from_word, add_to_word, subtract_from_dword, add_to_dword, random_byte,
  delete_block, insert_block, overwrite_block,
}
pub mod Gaps
mod Tests

-- The entry's tree, and the buffer.
pub record Subject : Type 0 where
  pub tree : Tree
  pub out_buf : List ℕ
  pub temp_len : ℕ

-- A mutation returns whether the structure has changed.
pub record Changed : Type 0 where
  pub subject : Subject
  pub changed : Bool

-- HAVOC_METHODS
abbrev pub havoc_methods : ℕ
havoc_methods = 15

module _ {G : Type 0} (src : Source G) where
  -- The cases 11 to 14 of havoc(), on the bytes of a chunk.
  unfoldable pub chunk_block_cases : ℕ → List ℕ → Draw G (List ℕ)
  chunk_block_cases zero buf = elim (ltb (length buf) 2) [
    | true ↦ give buf
    | false ↦ delete_block src buf
  ]
  chunk_block_cases (suc zero) buf = elim (ltb (length buf) 2) [
    | true ↦ give buf
    | false ↦ delete_block src buf
  ]
  chunk_block_cases (suc (suc zero)) buf = elim (ltb (length buf + blk_xl) max_file) [
    | true ↦ insert_block src buf
    | false ↦ give buf
  ]
  chunk_block_cases (suc (suc (suc zero))) buf = elim (ltb (length buf) 2) [
    | true ↦ give buf
    | false ↦ overwrite_block src buf
  ]
  chunk_block_cases (suc (suc (suc (suc n)))) buf = give buf

  -- The cases 6 to 10.
  unfoldable pub chunk_word_cases : ℕ → List ℕ → Draw G (List ℕ)
  chunk_word_cases zero buf = subtract_from_word src buf
  chunk_word_cases (suc zero) buf = add_to_word src buf
  chunk_word_cases (suc (suc zero)) buf = subtract_from_dword src buf
  chunk_word_cases (suc (suc (suc zero))) buf = add_to_dword src buf
  chunk_word_cases (suc (suc (suc (suc zero)))) buf = random_byte src buf
  chunk_word_cases (suc (suc (suc (suc (suc n))))) buf = chunk_block_cases n buf

  -- Case 3 has no `break` at its end: after a dword, a byte is changed as in case 4.
  unfoldable pub dword_and_byte : List ℕ → Draw G (List ℕ)
  dword_and_byte buf = elim (ltb (length buf) 4) [
    | true ↦ give buf
    | false ↦ do b ← interesting_word32 src buf; subtract_from_byte src b
  ]

  unfoldable pub chunk_cases : ℕ → List ℕ → Draw G (List ℕ)
  chunk_cases zero buf = flip_random_bit src buf
  chunk_cases (suc zero) buf = interesting_byte src buf
  chunk_cases (suc (suc zero)) buf = interesting_word16 src buf
  chunk_cases (suc (suc (suc zero))) buf = dword_and_byte buf
  chunk_cases (suc (suc (suc (suc zero)))) buf = subtract_from_byte src buf
  chunk_cases (suc (suc (suc (suc (suc zero))))) buf = add_to_byte src buf
  chunk_cases (suc (suc (suc (suc (suc (suc n)))))) buf = chunk_word_cases n buf

  -- havoc(): the new bytes of the chunk, `changed_size` being the difference of the lengths.
  unfoldable pub havoc : List ℕ → ℕ → Draw G (List ℕ)
  havoc buf method = elim (ltb (length buf) 1) [ true ↦ give buf | false ↦ chunk_cases method buf ]

-- The siblings and children with the fields of the chunk at an address changed.
unfoldable pub change_fields : ℕ → (Fields → Fields) → Tree → Tree
change_fields address change null = null
change_fields address change (chunk f next children) =
    chunk (if f.address == address then change f else f) (change_fields address change next)
      (change_fields address change children)

abbrev pub change_root : (Fields → Fields) → Tree → Tree
change_root change null = null
change_root change (chunk f next children) = chunk (change f) next children

-- `end_byte += size`, for the target; `start_byte -= size`, for the root.
abbrev pub move_end : ℕ → Fields → Fields
move_end size f = record f { end_byte = (f.end_byte + size) % 2 ^ 32 }

abbrev pub move_start_back : ℕ → Fields → Fields
move_start_back size f = record f { start_byte = (f.start_byte + 2 ^ 32 - size) % 2 ^ 32 }

-- intelli_havoc() from `if (changed_size != 0)` on: the new buffer has `temp_len + changed_size`
-- bytes, and `temp_len - end_byte` bytes are copied behind the chunk.
unfoldable pub resize_chunk : {G : Type 0} → Fields → List ℕ → Subject → Draw G Changed
resize_chunk f body t = do
  let changed_size = (length body + 2 ^ 32 - chunk_len f) % 2 ^ 32
  let new_len = t.temp_len + length body - chunk_len f
  before ← read t.out_buf 0 f.start_byte
  b1 ← write (replicate new_len 0) 0 before
  b2 ← write b1 f.start_byte body
  behind ← read t.out_buf (f.end_byte + 1) (t.temp_len - f.end_byte)
  b3 ← write b2 (f.start_byte + length body) behind
  give (record {
    subject = record {
      tree = change_root (move_start_back changed_size) (
          pre_order_traverse (change_fields f.address (move_end changed_size) t.tree) f.address
            changed_size);
      out_buf = b3;
      temp_len = new_len;
    };
    changed = true;
  })

-- The chunk's bytes go back if their number is the same.
unfoldable pub put_chunk : {G : Type 0} → Fields → List ℕ → Subject → Draw G Changed
put_chunk f body t = elim (length body == chunk_len f) [
  | true ↦ do
    b ← write t.out_buf f.start_byte body
    give (record { subject = record t { out_buf = b }; changed = false })
  | false ↦ resize_chunk f body t
]

-- The tail of the file, and the byte behind it, are moved from `from` to `to`.
unfoldable pub close_gap : {G : Type 0} → List ℕ → (temp_len to from : ℕ) → Draw G (List ℕ)
close_gap out_buf temp_len to from = do
  tail ← read out_buf from (temp_len - from + 1)
  write out_buf to tail

-- delete_chunk() for the chunk that was chosen.
unfoldable pub delete_at : {G : Type 0} → Fields → Subject → Draw G Changed
delete_at f t = do
  let del_len = chunk_len f
  b ← close_gap t.out_buf t.temp_len f.start_byte (f.start_byte + del_len)
  tree ← found (search_and_destroy_chunk t.tree f.address f.start_byte del_len)
  give (record {
    subject = record { tree = tree; out_buf = b; temp_len = t.temp_len - del_len };
    changed = true;
  })

abbrev pub unchanged : Subject → Changed
unchanged t = record { subject = t; changed = false }

-- get_modifiable_chunks() from the root of the entry's tree.
unfoldable pub modifiable_chunks : Tree → Bool → List Node
modifiable_chunks null only_leaf = []
modifiable_chunks (chunk f next children) only_leaf =
    get_modifiable_chunks (record { fields = f; children = children }) [] only_leaf

module _ {G : Type 0} (src : Source G) where
  -- A chunk of less than one byte is left alone. All bytes of the chunk are read here, also where the
  -- method does not look at them.
  unfoldable pub havoc_chunk : Fields → Subject → Draw G Changed
  havoc_chunk f t = do
    method ← draw src havoc_methods
    elim (is_above (chunk_len f) 0) [
      | false ↦ give (unchanged t)
      | true ↦ do
        bytes ← read t.out_buf f.start_byte (chunk_len f)
        body ← havoc src bytes method
        put_chunk f body t
    ]

  unfoldable pub intelli_havoc : Subject → Draw G Changed
  intelli_havoc t =
      let chunk_arr = modifiable_chunks t.tree true in
      elim (ltb (length chunk_arr) 1) [
        | true ↦ give (unchanged t)
        | false ↦ do
          chunk_id ← draw src (length chunk_arr)
          target ← index chunk_arr chunk_id
          havoc_chunk target.fields t
      ]

  unfoldable pub delete_chunk : Subject → Draw G Changed
  delete_chunk t =
      let chunk_arr = modifiable_chunks t.tree false in
      elim (ltb (length chunk_arr) 1) [
        | true ↦ give (unchanged t)
        | false ↦ do
          k ← draw src (length chunk_arr)
          target ← index chunk_arr k
          delete_at target.fields t
      ]
