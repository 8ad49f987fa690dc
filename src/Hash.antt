-- ===== src/Hash.antt =====
-- hash32 of fuzzer/hash.h, in the flavour for x86_64: a hash of a map in 64-bit words.
use nfuzzer.Base.{ℕ, zero, suc, ◌+◌, ◌-◌, ◌*◌, ◌/◌, ◌%◌, ◌^◌, bit_xor, List, length, take, drop}
use nfuzzer.Base.Bytes.{load}

-- ROL64
unfoldable pub rol64 : ℕ → ℕ → ℕ
rol64 x r = (x * 2 ^ r) % 2 ^ 64 + x / 2 ^ (64 - r)

-- The body of the loop, on one word of the data.
unfoldable pub mix_word : ℕ → ℕ → ℕ
mix_word h1 word =
    let k1 = rol64 (word * 0x87c37b91114253d5 % 2 ^ 64) 31 * 0x4cf5ad432745937f % 2 ^ 64 in
    (rol64 (bit_xor h1 k1) 27 * 5 + 0x52dce729) % 2 ^ 64

unfoldable pub mix_words : ℕ → List ℕ → ℕ → ℕ
mix_words zero key h1 = h1
mix_words (suc len) key h1 = mix_words len (drop 8 key) (mix_word h1 (load (take 8 key)))

-- `h1 ^= h1 >> 33`
unfoldable pub fold_high : ℕ → ℕ
fold_high h1 = bit_xor h1 (h1 / 2 ^ 33)

-- HASH_CONST
abbrev pub hash_const : ℕ
hash_const = 0xa5b35705

-- The result is cut to 32 bits.
unfoldable pub hash32 : List ℕ → ℕ → ℕ
hash32 key seed =
    let h1 = mix_words (length key / 8) key (bit_xor seed (length key)) in
    let h2 = fold_high h1 * 0xff51afd7ed558ccd % 2 ^ 64 in
    let h3 = fold_high h2 * 0xc4ceb9fe1a85ec53 % 2 ^ 64 in fold_high h3 % 2 ^ 32
