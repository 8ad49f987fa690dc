-- ===== src/Config.antt =====
-- Constants of fuzzer/config.h. MAP_SIZE_POW2 stays a variable: the file allows any value above 2.
use native.Mathlib.Nat.{pow-suc}
use nfuzzer.Base.{ℕ, zero, suc, ◌*◌, ◌/◌, ◌^◌, ◌<◌, ◌≡◌, arith}

-- MAP_SIZE, `1 << MAP_SIZE_POW2`
abbrev pub map_size : ℕ → ℕ
map_size pow2 = 2 ^ pow2

-- A map is a whole number of 64-bit words.
pub map_size-words : (pow2 : ℕ) → 2 < pow2 → map_size pow2 ≡ 8 * (map_size pow2 / 8)
map_size-words zero h = absurd (omega arith)
map_size-words (suc zero) h = absurd (omega arith)
map_size-words (suc (suc zero)) h = absurd (omega arith)
map_size-words (suc (suc (suc p))) h =
    omega (arith, pow-suc 2 (suc (suc p)), pow-suc 2 (suc p), pow-suc 2 p)
