-- ===== src/Tree.antt =====
-- The chunk trees of fuzzer/smart-chunks.c and smart-chunks.h: where the parts of a structured
-- input lie in it. A tree is `NULL` or a chunk with its next sibling and its children; `address`
-- stands for the pointer to a chunk. An `int` is a 32-bit word in two's complement.
use nfuzzer.Base.{
  ℕ, zero, suc, ◌+◌, ◌-◌, ◌*◌, ◌%◌, ◌^◌, ◌≡◌, Bool, true, false, ◌&&◌, ◌||◌, if◌then◌else◌, ltb,
  leb, ◌==◌, ◌>>=◌, Option, none, some,
}
pub mod Shift
pub mod Destroy
pub mod Copy
pub mod Traverse
pub mod Search
pub mod Found
pub mod Chosen
pub mod Paths
pub mod Grow
pub mod Reading
mod Tests

-- struct chunk, less the two links.
pub record Fields : Type 0 where
  pub address : ℕ
  pub id : ℕ
  pub type : ℕ
  pub start_byte : ℕ
  pub end_byte : ℕ
  pub modifiable : Bool

pub data Tree : Type 0 where
  null : Tree
  -- the fields, then `next`, then `children`
  chunk : Fields → Tree → Tree → Tree

-- `x >= 0` and `x > y` on 32-bit ints.
unfoldable pub is_nonneg : ℕ → Bool
is_nonneg x = ltb x (2 ^ 31)

unfoldable pub is_above : ℕ → ℕ → Bool
is_above x y = ltb ((y + 2 ^ 31) % 2 ^ 32) ((x + 2 ^ 31) % 2 ^ 32)

unfoldable pub reduce_start : ℕ → ℕ → ℕ → ℕ
reduce_start start_byte size x =
    if is_nonneg x && is_above x start_byte then (x + 2 ^ 32 - size) % 2 ^ 32 else x

unfoldable pub reduce_end : ℕ → ℕ → ℕ → ℕ
reduce_end start_byte size x =
    if is_nonneg x && (is_above x start_byte || x == start_byte)
    then (x + 2 ^ 32 - size) % 2 ^ 32
    else x

unfoldable pub reduce_fields : ℕ → ℕ → Fields → Fields
reduce_fields start_byte size f = record f {
  start_byte = reduce_start start_byte size f.start_byte;
  end_byte = reduce_end start_byte size f.end_byte;
}

unfoldable pub reduce_byte_positions : Tree → ℕ → ℕ → Tree
reduce_byte_positions null start_byte size = null
reduce_byte_positions (chunk f next children) start_byte size =
    chunk (reduce_fields start_byte size f) (reduce_byte_positions next start_byte size)
      (reduce_byte_positions children start_byte size)

unfoldable pub increase_start : ℕ → ℕ → ℕ → ℕ
increase_start start_byte size x =
    if is_nonneg x && is_above x start_byte then (x + size) % 2 ^ 32 else x

unfoldable pub increase_end : ℕ → ℕ → ℕ → ℕ
increase_end start_byte size x =
    if is_nonneg x && (is_above x start_byte || x == start_byte) then (x + size) % 2 ^ 32 else x

unfoldable pub increase_fields : ℕ → ℕ → Fields → Fields
increase_fields start_byte size f = record f {
  start_byte = increase_start start_byte size f.start_byte;
  end_byte = increase_end start_byte size f.end_byte;
}

-- The chunks below `target` are left alone.
unfoldable pub increase_byte_positions_except_target_children : Tree → ℕ → ℕ → ℕ → Tree
increase_byte_positions_except_target_children null target start_byte size = null
increase_byte_positions_except_target_children (chunk f next children) target start_byte size =
    let below = increase_byte_positions_except_target_children children target start_byte size in
    chunk (increase_fields start_byte size f)
      (increase_byte_positions_except_target_children next target start_byte size)
      (if f.address == target then children else below)

-- The number of chunks.
unfoldable pub chunks : Tree → ℕ
chunks null = 0
chunks (chunk f next children) = suc (chunks next + chunks children)

-- The loop of search_and_destroy_chunk, with fuel: after it has removed the target it goes on at
-- the siblings that reduce_byte_positions has just changed. `none` when the fuel is used up.
unfoldable pub destroy : ℕ → Tree → ℕ → ℕ → ℕ → Option Tree
destroy fuel null target start_byte size = some null
destroy zero (chunk f next children) target start_byte size = none
destroy (suc fuel) (chunk f next children) target start_byte size = elim (f.address == target) [
  | true ↦ destroy fuel (reduce_byte_positions next start_byte size) target start_byte size
  | false ↦ do
    below ← destroy fuel children target start_byte size
    rest ← destroy fuel next target start_byte size
    some (chunk (reduce_fields start_byte size f) rest below)
]

-- One round for each chunk is enough, as `search_and_destroy_chunk_lem` shows.
unfoldable pub search_and_destroy_chunk : Tree → ℕ → ℕ → ℕ → Option Tree
search_and_destroy_chunk c target_chunk start_byte size =
    destroy (chunks c) c target_chunk start_byte size
