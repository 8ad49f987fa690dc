-- ===== src/Bitmap/Counts.antt =====
-- `count_bits`, `count_bytes` and `count_non_255_bytes` of fuzzer/afl-fuzz.c: three loops that read
-- a map as MAP_SIZE >> 2 words of 32 bits and add to a 32-bit counter.
pub mod Popcount
pub mod Totals
use nfuzzer.Base.{
  ℕ, zero, suc, ◌+◌, ◌-◌, ◌*◌, ◌/◌, ◌%◌, ◌^◌, ◌==◌, if◌then◌else◌, bit_and, Bool, not, List, take,
  drop,
}
use nfuzzer.Base.Bytes.{load}
use nfuzzer.Config.{map_size}

-- `while (i--) { u32 v = *(ptr++); … }`, the body being a function of the word and of `ret`.
pub each_word : (ℕ → ℕ → ℕ) → ℕ → List ℕ → ℕ → ℕ
each_word body zero ptr ret = ret
each_word body (suc i) ptr ret = each_word body i (drop 4 ptr) (body (load (take 4 ptr)) ret)

abbrev pub add32 : ℕ → ℕ → ℕ
add32 a b = (a + b) % 2 ^ 32

-- `v -= ((v >> 1) & 0x55555555)`; what is subtracted is never above v.
pub pair_sums : ℕ → ℕ
pair_sums v = v - bit_and (v / 2) 0x5555_5555

-- `v = (v & 0x33333333) + ((v >> 2) & 0x33333333)`
pub nibble_sums : ℕ → ℕ
nibble_sums v = add32 (bit_and v 0x3333_3333) (bit_and (v / 4) 0x3333_3333)

-- `(((v + (v >> 4)) & 0xF0F0F0F) * 0x01010101) >> 24`
pub word_sum : ℕ → ℕ
word_sum v = bit_and (add32 v (v / 16)) 0x0f0f_0f0f * 0x0101_0101 % 2 ^ 32 / 2 ^ 24

pub count_bits_word : ℕ → ℕ → ℕ
count_bits_word v ret =
    if v == 0xffff_ffff then add32 ret 32 else add32 ret (word_sum (nibble_sums (pair_sums v)))

pub count_bits : ℕ → List ℕ → ℕ
count_bits pow2 mem = each_word count_bits_word (map_size pow2 / 4) mem 0

-- FF(_b), as the 32-bit mask that it is beside `v`
abbrev pub ff : ℕ → ℕ
ff b = 0xff * 256 ^ b

-- `if (v & FF(_b)) ret++`
pub count_set : ℕ → ℕ → ℕ → ℕ
count_set v b ret = if bit_and v (ff b) == 0 then ret else add32 ret 1

pub count_bytes_word : ℕ → ℕ → ℕ
count_bytes_word v ret =
    if v == 0 then ret else count_set v 3 (count_set v 2 (count_set v 1 (count_set v 0 ret)))

pub count_bytes : ℕ → List ℕ → ℕ
count_bytes pow2 mem = each_word count_bytes_word (map_size pow2 / 4) mem 0

-- `if ((v & FF(_b)) != FF(_b)) ret++`
pub count_unset : ℕ → ℕ → ℕ → ℕ
count_unset v b ret = if bit_and v (ff b) == ff b then ret else add32 ret 1

pub count_non_255_word : ℕ → ℕ → ℕ
count_non_255_word v ret =
    if v == 0xffff_ffff
    then ret
    else count_unset v 3 (count_unset v 2 (count_unset v 1 (count_unset v 0 ret)))

pub count_non_255_bytes : ℕ → List ℕ → ℕ
count_non_255_bytes pow2 mem = each_word count_non_255_word (map_size pow2 / 4) mem 0
