-- ===== src/Mutate.antt =====
-- The random stages of fuzz_one() in fuzzer/afl-fuzz.c, from the label havoc_stage on: Draw is code
-- that draws random numbers and may fault, Memory the accesses to buffers, Tweaks the changes that a
-- case of the switch makes, Switch the switch and the loop around it, Stage the loop over the runs
-- and Splice the splicing of two files. Sizes has what the tweaks do to the length of the file.
pub mod Draw
pub mod Memory
pub mod Tweaks
pub mod Sizes
pub mod Switch
pub mod Stage
pub mod Splice
mod Tests
