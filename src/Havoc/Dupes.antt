-- ===== src/Havoc/Dupes.antt =====
-- could_be_bitflip, could_be_arith and could_be_interest of fuzzer/afl-fuzz.c, with SWAP16 and
-- SWAP32 of fuzzer/types.h. A u32 is a number below 2 ^ 32, with the conversions written out.
use nfuzzer.Base.{
  ℕ, zero, suc, ◌+◌, ◌-◌, ◌*◌, ◌/◌, ◌%◌, ◌^◌, ◌≤◌, ◌<◌, bit_and, bit_or, ◌≡◌, refl, arith, Bool,
  true, false, not, ◌&&◌, ◌||◌, if◌then◌else◌, ltb, leb, ◌==◌, List, [], ◌∷◌, ◌++◌, ◌⊎◌, inl, inr,
  ap,
}
pub mod Flips

-- ARITH_MAX
abbrev pub arith_max : ℕ
arith_max = 35

-- INTERESTING_8, INTERESTING_16 and INTERESTING_32: the magnitude of each and whether it is
-- negative, as the w-bit words that the casts make of them.
unfoldable pub interesting_8 : ℕ → List ℕ
interesting_8 w = (2 ^ w - 128) ∷ (2 ^ w - 1) ∷ 0 ∷ 1 ∷ 16 ∷ 32 ∷ 64 ∷ 100 ∷ 127 ∷ []

unfoldable pub interesting_16 : ℕ → List ℕ
interesting_16 w =
    interesting_8 w
    ++ ((2 ^ w - 32768) ∷ (2 ^ w - 129) ∷ 128 ∷ 255 ∷ 256 ∷ 512 ∷ 1000 ∷ 1024 ∷ 4096 ∷ 32767 ∷ [])

unfoldable pub interesting_32 : List ℕ
interesting_32 =
    interesting_16 32
    ++ ((2 ^ 32 - 2147483648)
        ∷ (2 ^ 32 - 100663046)
        ∷ (2 ^ 32 - 32769)
        ∷ 32768
        ∷ 65535
        ∷ 65536
        ∷ 100663045
        ∷ 2147483647
        ∷ [])

-- SWAP16, SWAP32
unfoldable pub swap16 : ℕ → ℕ
swap16 x = bit_or (x % 2 ^ 16 * 256) (x % 2 ^ 16 / 256) % 2 ^ 16

unfoldable pub swap32 : ℕ → ℕ
swap32 x =
    bit_or
      (bit_or (bit_or (x * 2 ^ 24 % 2 ^ 32) (x / 2 ^ 24)) (bit_and (x * 256 % 2 ^ 32) 0x00FF0000))
      (bit_and (x / 256) 0x0000FF00)

-- `xor_val` and `sh` after the loop that shifts to the first bit set. The fuel is the width, which
-- is enough for a word that is not 0.
pub record Shifted : Type 0 where
  pub xor_val : ℕ
  pub sh : ℕ

unfoldable pub shift_to_first : ℕ → ℕ → ℕ → Shifted
shift_to_first zero xor_val sh = record { xor_val = xor_val; sh = sh }
shift_to_first (suc fuel) xor_val sh =
    let rest = shift_to_first fuel (xor_val / 2) (sh + 1) in
    if xor_val % 2 == 1 then record { xor_val = xor_val; sh = sh } else rest

unfoldable pub could_be_bitflip : ℕ → Bool
could_be_bitflip xor_val =
    let s = shift_to_first 32 xor_val 0 in
    if xor_val == 0
    then true
    else (if s.xor_val == 1 || s.xor_val == 3 || s.xor_val == 15
        then true
        else (if not (s.sh % 8 == 0)
            then false
            else s.xor_val == 0xff || s.xor_val == 0xffff || s.xor_val == 0xffffffff))

-- `diffs`, `ov` and `nv`
pub record Diffs : Type 0 where
  pub diffs : ℕ
  pub ov : ℕ
  pub nv : ℕ

-- The loops over the w-bit units of both values, from unit `i` on; `n` units are left.
unfoldable pub unit_diffs : (w : ℕ) (n i : ℕ) → ℕ → ℕ → Diffs → Diffs
unit_diffs w zero i old_val new_val d = d
unit_diffs w (suc n) i old_val new_val d =
    let a = old_val / 2 ^ (w * i) % 2 ^ w in
    let b = new_val / 2 ^ (w * i) % 2 ^ w in
    unit_diffs w n (i + 1) old_val new_val
      (if a == b then d else record { diffs = d.diffs + 1; ov = a; nv = b })

-- `(uN)(a - b) <= ARITH_MAX || (uN)(b - a) <= ARITH_MAX`, for a and b below 2 ^ w.
unfoldable pub in_arith_range : ℕ → ℕ → ℕ → Bool
in_arith_range w a b =
    leb ((a + 2 ^ w - b) % 2 ^ w) arith_max || leb ((b + 2 ^ w - a) % 2 ^ w) arith_max

unfoldable pub byte_arith : ℕ → ℕ → ℕ → Bool
byte_arith old_val new_val blen =
    let d = unit_diffs 8 blen 0 old_val new_val (record { diffs = 0; ov = 0; nv = 0 }) in
    d.diffs == 1 && in_arith_range 8 d.ov d.nv

unfoldable pub word_arith : ℕ → ℕ → ℕ → Bool
word_arith old_val new_val blen =
    let d = unit_diffs 16 (blen / 2) 0 old_val new_val (record { diffs = 0; ov = 0; nv = 0 }) in
    d.diffs == 1 && (in_arith_range 16 d.ov d.nv || in_arith_range 16 (swap16 d.ov) (swap16 d.nv))

unfoldable pub dword_arith : ℕ → ℕ → Bool
dword_arith old_val new_val =
    in_arith_range 32 old_val new_val || in_arith_range 32 (swap32 old_val) (swap32 new_val)

unfoldable pub could_be_arith : ℕ → ℕ → ℕ → Bool
could_be_arith old_val new_val blen =
    if old_val == new_val
    then true
    else (if byte_arith old_val new_val blen
        then true
        else (if blen == 1
            then false
            else (if word_arith old_val new_val blen
                then true
                else blen == 4 && dword_arith old_val new_val)))

-- `(old_val & ~(mask << (i * 8))) | (v << (i * 8))`
unfoldable pub insert_at : ℕ → ℕ → ℕ → ℕ → ℕ
insert_at mask i old_val v =
    bit_or (bit_and old_val (2 ^ 32 - 1 - mask * 2 ^ (8 * i))) (v * 2 ^ (8 * i))

unfoldable pub any_of : (ℕ → Bool) → List ℕ → Bool
any_of test [] = false
any_of test (v ∷ vs) = test v || any_of test vs

-- Some offset from `i` on, `n` offsets being left, passes the test.
unfoldable pub any_offset : (ℕ → Bool) → ℕ → ℕ → Bool
any_offset test zero i = false
any_offset test (suc n) i = test i || any_offset test n (i + 1)

unfoldable pub byte_interest : ℕ → ℕ → ℕ → Bool
byte_interest old_val new_val i =
    any_of (λ v. new_val == insert_at 0xff i old_val v) (interesting_8 8)

unfoldable pub word_interest : ℕ → ℕ → ℕ → ℕ → Bool
word_interest old_val new_val blen i =
    any_of
      (λ v.
        new_val == insert_at 0xffff i old_val v
        || ltb 2 blen && new_val == insert_at 0xffff i old_val (swap16 v))
      (interesting_16 16)

unfoldable pub could_be_interest : ℕ → ℕ → ℕ → Bool → Bool
could_be_interest old_val new_val blen check_le =
    if old_val == new_val
    then true
    else (if any_offset (byte_interest old_val new_val) blen 0
        then true
        else (if blen == 2 && not check_le
            then false
            else (if any_offset (word_interest old_val new_val blen) (blen - 1) 0
                then true
                else blen == 4 && check_le && any_of (λ v. new_val == v) interesting_32)))
