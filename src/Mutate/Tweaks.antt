-- ===== src/Mutate/Tweaks.antt =====
-- The random tweaks of the havoc stage of fuzz_one() in fuzzer/afl-fuzz.c, which havoc() has too:
-- `out_buf` up to `temp_len` is a list. Where C leaves open which of two calls of UR() in a
-- statement comes first, the position is drawn first.
use nfuzzer.Base.{
  ℕ, ◌+◌, ◌-◌, ◌*◌, ◌/◌, ◌%◌, ◌^◌, Bool, true, false, not, ltb, ◌==◌, List, [], ◌∷◌, length, take,
  replicate, bit_xor, if◌then◌else◌,
}
use nfuzzer.Base.Bytes.{load, store}
use nfuzzer.Havoc.Blocks.{blk_xl}
use nfuzzer.Havoc.Dupes.{arith_max, interesting_8, interesting_16, interesting_32, swap16, swap32}
use nfuzzer.Mutate.Draw.{Source, Draw, give, ◌>>=◌, draw, block_len}
use nfuzzer.Mutate.Memory.{read, write, index, fill_byte}

-- Addition and subtraction of words below `m`.
abbrev pub plus : ℕ → ℕ → ℕ → ℕ
plus m x num = (x + num) % m

abbrev pub minus : ℕ → ℕ → ℕ → ℕ
minus m x num = (x + m - num) % m

-- `UR(2)` chooses the byte order: the word is changed as it is, or with its bytes swapped.
abbrev pub in_order : Bool → (ℕ → ℕ) → (ℕ → ℕ) → ℕ → ℕ
in_order native swap change x = if native then change x else swap (change (swap x))

-- `memcpy` of the head, the part and the tail into a new buffer, which has room for the file and the
-- part. All that ck_alloc_nozero() leaves in it is overwritten; zeros stand for it.
unfoldable pub splice_in : {G : Type 0} → List ℕ → ℕ → List ℕ → Draw G (List ℕ)
splice_in buf at part = do
  head ← read buf 0 at
  b1 ← write (replicate (length buf + length part) 0) 0 head
  b2 ← write b1 at part
  tail ← read buf at (length buf - at)
  write b2 (at + length part) tail

-- `if (copy_from != copy_to) memmove(…)`
unfoldable pub move_block : {G : Type 0} → List ℕ → (from to n : ℕ) → Draw G (List ℕ)
move_block buf from to n = elim (from == to) [
  | true ↦ give buf
  | false ↦ do part ← read buf from n; write buf to part
]

module _ {G : Type 0} (src : Source G) where
  -- case 0
  unfoldable pub flip_random_bit : List ℕ → Draw G (List ℕ)
  flip_random_bit buf = do
    bit ← draw src (length buf * 8)
    byte ← index buf (bit / 8)
    write buf (bit / 8) (bit_xor byte (128 / 2 ^ (bit % 8)) ∷ [])

  -- case 1
  unfoldable pub interesting_byte : List ℕ → Draw G (List ℕ)
  interesting_byte buf = do
    pos ← draw src (length buf)
    k ← draw src (length (interesting_8 8))
    value ← index (interesting_8 8) k
    write buf pos (value ∷ [])

  -- The cases 2 and 3: a word of `n` bytes from a table, in a random byte order.
  unfoldable pub interesting_word : ℕ → (ℕ → ℕ) → List ℕ → List ℕ → Draw G (List ℕ)
  interesting_word n swap table buf = elim (ltb (length buf) n) [
    | true ↦ give buf
    | false ↦ do
      coin ← draw src 2
      pos ← draw src (length buf - (n - 1))
      k ← draw src (length table)
      value ← index table k
      write buf pos (store n (if coin == 0 then swap value else value))
  ]

  unfoldable pub interesting_word16 : List ℕ → Draw G (List ℕ)
  interesting_word16 = interesting_word 2 swap16 (interesting_16 16)

  unfoldable pub interesting_word32 : List ℕ → Draw G (List ℕ)
  interesting_word32 = interesting_word 4 swap32 interesting_32

  -- The cases 4 and 5.
  unfoldable pub change_byte : (ℕ → ℕ → ℕ) → List ℕ → Draw G (List ℕ)
  change_byte change buf = do
    pos ← draw src (length buf)
    r ← draw src arith_max
    byte ← index buf pos
    write buf pos (change byte (1 + r) ∷ [])

  unfoldable pub subtract_from_byte : List ℕ → Draw G (List ℕ)
  subtract_from_byte = change_byte (minus (2 ^ 8))

  unfoldable pub add_to_byte : List ℕ → Draw G (List ℕ)
  add_to_byte = change_byte (plus (2 ^ 8))

  -- The cases 6 to 9: a word of `n` bytes, in a random byte order.
  unfoldable pub change_word : ℕ → (ℕ → ℕ) → (ℕ → ℕ → ℕ) → List ℕ → Draw G (List ℕ)
  change_word n swap change buf = elim (ltb (length buf) n) [
    | true ↦ give buf
    | false ↦ do
      coin ← draw src 2
      pos ← draw src (length buf - (n - 1))
      r ← draw src arith_max
      word ← read buf pos n
      let changed = in_order (not (coin == 0)) swap (λ (x : ℕ). change x (1 + r)) (load word)
      write buf pos (store n changed)
  ]

  unfoldable pub subtract_from_word : List ℕ → Draw G (List ℕ)
  subtract_from_word = change_word 2 swap16 (minus (2 ^ 16))

  unfoldable pub add_to_word : List ℕ → Draw G (List ℕ)
  add_to_word = change_word 2 swap16 (plus (2 ^ 16))

  unfoldable pub subtract_from_dword : List ℕ → Draw G (List ℕ)
  subtract_from_dword = change_word 4 swap32 (minus (2 ^ 32))

  unfoldable pub add_to_dword : List ℕ → Draw G (List ℕ)
  add_to_dword = change_word 4 swap32 (plus (2 ^ 32))

  -- case 10
  unfoldable pub random_byte : List ℕ → Draw G (List ℕ)
  random_byte buf = do
    pos ← draw src (length buf)
    r ← draw src 255
    byte ← index buf pos
    write buf pos (bit_xor byte (1 + r) ∷ [])

  -- The cases 11 and 12, for a buffer of two bytes or more: the tail is moved down.
  unfoldable pub delete_block : List ℕ → Draw G (List ℕ)
  delete_block buf = do
    del_len ← block_len src (length buf - 1)
    del_from ← draw src (length buf - del_len + 1)
    tail ← read buf (del_from + del_len) (length buf - del_from - del_len)
    moved ← write buf del_from tail
    give (take (length buf - del_len) moved)

  -- What case 13 inserts: a part of the buffer, or a block of constant bytes.
  unfoldable pub cloned_block : List ℕ → Draw G (List ℕ)
  cloned_block buf = do
    clone_len ← block_len src (length buf)
    clone_from ← draw src (length buf - clone_len + 1)
    read buf clone_from clone_len

  unfoldable pub constant_block : List ℕ → ℕ → Draw G (List ℕ)
  constant_block buf n = do byte ← fill_byte src buf; give (replicate n byte)

  -- The head, the inserted part and the tail. `clone_to` is drawn after `clone_len`, and before the
  -- constant byte.
  unfoldable pub insert_block : List ℕ → Draw G (List ℕ)
  insert_block buf = do
    actually_clone ← draw src 4
    elim (actually_clone == 0) [
      | true ↦ do
        clone_len ← block_len src blk_xl
        clone_to ← draw src (length buf)
        part ← constant_block buf clone_len
        splice_in buf clone_to part
      | false ↦ do
        part ← cloned_block buf
        clone_to ← draw src (length buf)
        splice_in buf clone_to part
    ]

  -- case 14, for a buffer of two bytes or more
  unfoldable pub overwrite_block : List ℕ → Draw G (List ℕ)
  overwrite_block buf = do
    copy_len ← block_len src (length buf - 1)
    copy_from ← draw src (length buf - copy_len + 1)
    copy_to ← draw src (length buf - copy_len + 1)
    coin ← draw src 4
    elim (coin == 0) [
      | true ↦ do part ← constant_block buf copy_len; write buf copy_to part
      | false ↦ move_block buf copy_from copy_to copy_len
    ]
