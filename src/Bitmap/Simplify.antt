-- ===== src/Bitmap/Simplify.antt =====
-- `simplify_trace` of fuzzer/afl-fuzz.c (the flavour for x86_64), and `apply_mask` and
-- `anything_set` of fuzzer/afl-tmin.c, which read 32-bit words.
pub mod Bytewise
use nfuzzer.Base.{
  ℕ, zero, suc, ◌-◌, ◌/◌, ◌^◌, ◌==◌, if◌then◌else◌, bit_and, Bool, true, false, List, [], ◌∷◌, ◌++◌,
  map, take, drop, Option, none, some,
}
use nfuzzer.Base.Bytes.{load, store}
use nfuzzer.Bitmap.Groups.{each_group}
use nfuzzer.Config.{map_size}

pub simplify_lookup : ℕ → ℕ
simplify_lookup b = if b == 0 then 1 else 128

-- The eight bytes of one word: `mem8[k] = simplify_lookup[mem8[k]]`, or one store of a constant.
pub simplify_word : List ℕ → List ℕ
simplify_word mem = if load mem == 0 then store 8 0x0101_0101_0101_0101 else map simplify_lookup mem

pub simplify_trace : ℕ → List ℕ → List ℕ
simplify_trace pow2 mem = each_group simplify_word (map_size pow2 / 8) mem

-- `while (i--) { *mem &= ~*mask; mem++; mask++; }`
pub mask_words : ℕ → List ℕ → List ℕ → List ℕ
mask_words zero mem mask = mem
mask_words (suc i) mem mask =
    store 4 (bit_and (load (take 4 mem)) (2 ^ 32 - 1 - load (take 4 mask)))
    ++ mask_words i (drop 4 mem) (drop 4 mask)

-- A null mask leaves the map alone.
pub apply_mask : ℕ → List ℕ → Option (List ℕ) → List ℕ
apply_mask pow2 mem none = mem
apply_mask pow2 mem (some mask) = mask_words (map_size pow2 / 4) mem mask

-- `while (i--) if (*(ptr++)) return 1;`
pub any_word : ℕ → List ℕ → Bool
any_word zero ptr = false
any_word (suc i) ptr =
    let rest = any_word i (drop 4 ptr) in if load (take 4 ptr) == 0 then rest else true

pub anything_set : ℕ → List ℕ → Bool
anything_set pow2 trace_bits = any_word (map_size pow2 / 4) trace_bits
