-- ===== src/Stages.antt =====
-- The deterministic stages of fuzz_one() in fuzzer/afl-fuzz.c.
pub mod Flip
pub mod Words
pub mod Tries
pub mod Walk
pub mod Effector
pub mod Values
pub mod Extras
pub mod Det
mod Tests
