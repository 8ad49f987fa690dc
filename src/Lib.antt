-- ===== src/Lib.antt =====
-- A model of the core of nfuzzer, the coverage-guided fuzzer under fuzzer/.
--
-- The fuzzer (fuzzer/afl-fuzz.c) runs a target on mutated inputs, reads the coverage map that the
-- run leaves in shared memory, and keeps the inputs that show something new. Of this, and of the
-- tools beside it, the modules here model the following parts, each definition translated from the
-- C text.
--
-- Config: MAP_SIZE of fuzzer/config.h, with MAP_SIZE_POW2 a variable.
-- Bitmap: the coverage maps. A byte array is a list of bytes; a pointer to wider words is a load
--   and a store of little-endian groups of bytes (Base.Bytes), in the flavour for x86_64.
--   Virgin is has_new_bits; Counts is count_bits, count_bytes and count_non_255_bytes; Classes is
--   init_count_class16 and classify_counts, with the byte-wise version of afl-tmin.c, afl-analyze.c
--   and afl-showmap.c; Simplify is simplify_trace, and apply_mask and anything_set of afl-tmin.c;
--   Minimize is minimize_bits.
-- Hash: hash32 of fuzzer/hash.h, which makes the checksum of a map.
-- Score: update_bitmap_score, the best queue entry for each byte of the map, with the reference
--   counts on compacted traces. Queue entries are reached by pointers, which are numbers.
-- Cull: cull_queue and mark_as_redundant, which choose the favored entries. The directory
--   .state/redundant_edges is a function that tells which entries have a file.
-- Queue: add_to_queue, with the links `next` and `next_100` and the entry's copies of its parent's
--   chunk tree (Tree.Copy), and the entry that the splicing stage reaches through the links.
-- Havoc: helpers of fuzz_one. Blocks is UR, choose_block_len and next_p2; Energy is
--   calculate_score; Dupes is could_be_bitflip, could_be_arith and could_be_interest.
-- Stages: the deterministic stages of fuzz_one, from bitflip 1/1 to the label skip_extras. Flip and
--   Words are FLIP_BIT and the writes through casts of pointers; Tries is the scheme of a stage that
--   tries values at each offset; Walk is bitflip 1/1 (with the tokens that it collects), 2/1 and 4/1;
--   Effector is bitflip 8/8, which makes the effector map, 16/8 and 32/8; Values is the arithmetic
--   and the interesting-value stages; Extras is the dictionary stages; Det is all of them in their
--   order. A stage is a function on `out_buf`, the two counters and a world `S`, and ends with
--   `abandoned` where the code jumps to abandon_entry. What common_fuzz_stuff() and the other
--   callees do to the world is a parameter.
-- Auto: maybe_add_auto, the automatic dictionary that bitflip 1/1 feeds, with qsort() and tolower()
--   of the C library as an interface.
-- Mutate: the random stages of fuzz_one, from the label havoc_stage on. Code that calls random() is a
--   function on the state of the generator, which also tells where an access would be outside a
--   buffer (Draw, Memory). Tweaks is the cases of the switch that change bytes, Switch the switch
--   with its dictionary cases and the stacking of tweaks, Stage the loop over the runs and its
--   prolonging, Splice locate_diffs and the splicing of two files.
-- Tree: the chunk trees of fuzzer/smart-chunks.c. Tree itself has the trees, the two functions that
--   move positions and search_and_destroy_chunk; Paths and Grow read a tree from a chunk file, where
--   an access outside a line or a buffer is an outcome of its own and atoi() of the C library is a
--   parameter; Copy is copy_chunks and copy_children_with_new_offset; Search is the searches of
--   afl-fuzz.c that the structure-aware mutations use, where a choice from an empty array, which
--   divides by zero, is `none`; Traverse is pre_order_traverse.
-- Smart: havoc, intelli_havoc and delete_chunk, the structure-aware mutations on a chunk of the file,
--   on Tree and the tweaks of Mutate. The buffer has all the bytes that are allocated.
-- Trim: trim_case.
-- Tmin: fuzzer/afl-tmin.c. Verdict is what run_target makes of a run, Tmin itself is minimize, Main
--   the size limits of read_initial_file and the end of main. The run of the child is a parameter,
--   and may answer differently each time; if it could not be executed, the minimizer ends.
-- As: add_instrumentation of fuzzer/afl-as.c, which copies an assembly file line by line and inserts
--   trampolines; isalpha() and isdigit() of the C library are parameters.
-- Analyze: fuzzer/afl-analyze.c: what run_target makes of a run, and the loop of analyze, which gives
--   each byte a class. What dump_hex makes of the classes is not modelled.
--
-- Bounds. Loops that count rounds down recur on the rounds that are left, so no fuel is needed.
-- next_p2 has 33 rounds, enough up to 2 ^ 31; could_be_bitflip 32, the width of its word;
-- search_and_destroy_chunk one for each chunk; add_path one for each character of its path and one
-- more. The havoc stage has as many rounds as its first `stage_max` times the score, or 3200, as each
-- doubling of `stage_max` doubles the score; minimize has twice the length of the input and two
-- passes, as each pass but the last removes or replaces a byte; the links of the queue are followed
-- once for each entry. Machine arithmetic is on natural numbers with the wrap-around written out.
-- What random() returns and the comparisons of doubles are parameters.
--
-- Not modelled: the process control (fork server, signals, shared memory set-up), the file system
-- but for the above, the status screen, command lines, splice_chunk, adopt_chunk and the choice
-- between the structure-aware mutations, calibration, the parser of dictionaries, afl-showmap,
-- afl-gotcpu, afl-gcc, and the Java parts.
pub mod Base
pub mod Config
pub mod Bitmap
pub mod Score
pub mod Cull
pub mod Havoc
pub mod Tree
pub mod Trim
pub mod Stages
pub mod Hash
pub mod Queue
pub mod Mutate
pub mod Smart
pub mod Tmin
pub mod Auto
pub mod As
pub mod Analyze
mod ScoreTests
