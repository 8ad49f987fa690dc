-- ===== src/Havoc.antt =====
-- The numeric helpers of fuzz_one() in fuzzer/afl-fuzz.c: UR, choose_block_len, next_p2,
-- calculate_score, and the tests that spot a value an earlier stage has tried (could_be_bitflip,
-- could_be_arith, could_be_interest), with SWAP16 and SWAP32 of fuzzer/types.h and the constants
-- of fuzzer/config.h. random() and the arithmetic on doubles are parameters.
pub mod Blocks
pub mod Energy
pub mod Dupes
mod Tests
