-- ===== src/Tree/Traverse.antt =====
-- pre_order_traverse of fuzzer/afl-fuzz.c, by which intelli_havoc moves the chunks that stand before
-- the one it changed.
use nfuzzer.Base.{ℕ, ◌+◌, ◌%◌, ◌^◌, ◌==◌, if◌then◌else◌}
use nfuzzer.Tree.{Fields, Tree, null, chunk}

-- `start_byte += val; end_byte += val;`
unfoldable pub add_to_fields : ℕ → Fields → Fields
add_to_fields val f = record f {
  start_byte = (f.start_byte + val) % 2 ^ 32;
  end_byte = (f.end_byte + val) % 2 ^ 32;
}

-- At the target `q` the traversal returns, so neither its children nor its later siblings move.
unfoldable pub pre_order_traverse : Tree → ℕ → ℕ → Tree
pre_order_traverse null q val = null
pre_order_traverse (chunk f next children) q val =
    let below = pre_order_traverse children q val in
    let rest = pre_order_traverse next q val in
    if f.address == q then chunk f next children else chunk (add_to_fields val f) rest below
