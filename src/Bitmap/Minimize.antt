-- ===== src/Bitmap/Minimize.antt =====
-- `minimize_bits` of fuzzer/afl-fuzz.c: one bit for each byte of a trace.
pub mod Bits
use nfuzzer.Base.{ℕ, zero, suc, ◌+◌, ◌/◌, ◌%◌, ◌^◌, ◌==◌, if◌then◌else◌, bit_or, List, get_or, set}
use nfuzzer.Config.{map_size}

-- `if (*(src++)) dst[i >> 3] |= 1 << (i & 7);`, `src` being the whole array
pub minimize_step : List ℕ → ℕ → List ℕ → List ℕ
minimize_step src i dst =
    if get_or src i 0 == 0
    then dst
    else set dst (i / 8) (bit_or (get_or dst (i / 8) 0) (2 ^ (i % 8)))

-- The loop at index i, with `left` rounds to go.
pub minimize_from : ℕ → ℕ → List ℕ → List ℕ → List ℕ
minimize_from zero i dst src = dst
minimize_from (suc left) i dst src = minimize_from left (i + 1) (minimize_step src i dst) src

pub minimize_bits : ℕ → List ℕ → List ℕ → List ℕ
minimize_bits pow2 dst src = minimize_from (map_size pow2) 0 dst src
