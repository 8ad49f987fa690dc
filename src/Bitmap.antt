-- ===== src/Bitmap.antt =====
-- The coverage maps of fuzzer/afl-fuzz.c: byte arrays of MAP_SIZE bytes which the routines walk
-- through pointers to wider words.
pub mod Groups
pub mod Virgin
pub mod Counts
pub mod Classes
pub mod Simplify
pub mod Minimize
mod Tests
