-- ===== src/Stages/Values.antt =====
-- The arithmetic and the interesting-value stages of fuzz_one() in fuzzer/afl-fuzz.c: which values
-- each tries at an offset, and the stages over the whole buffer.
use nfuzzer.Base.{
  ℕ, zero, suc, ◌+◌, ◌-◌, ◌*◌, ◌/◌, ◌%◌, ◌^◌, ◌≤◌, ◌<◌, ◌≡◌, refl, arith, Bool, true, false, not,
  ◌&&◌, ◌||◌, ltb, leb, ◌==◌, List, [], ◌∷◌, ◌++◌, length, bit_xor,
}
use nfuzzer.Base.Bytes.{store, IsBytes, length-store}
use nfuzzer.Havoc.Dupes.{
  arith_max, interesting_8, interesting_16, interesting_32, swap16, swap32, could_be_bitflip,
  could_be_arith, could_be_interest,
}
use nfuzzer.Stages.Tries.{Stage, Outcome, Candidate, try_stage}
pub mod Restore

-- A value of `n` bytes that is run if the test holds.
abbrev pub candidate : ℕ → Bool → ℕ → Candidate
candidate n wanted v = record { skipped = not wanted; bytes = store n v }

-- arith 8/8: plus and minus `j`, unless a bit flip could have made it.
unfoldable pub arith8_round : ℕ → ℕ → List Candidate
arith8_round orig j =
    let plus = (orig + j) % 2 ^ 8 in
    let minus = (orig + 2 ^ 8 - j) % 2 ^ 8 in
    candidate 1 (not (could_be_bitflip (bit_xor orig plus))) plus
    ∷ candidate 1 (not (could_be_bitflip (bit_xor orig minus))) minus
    ∷ []

-- arith 16/8: only where more than one byte changes; then the same on the swapped bytes.
unfoldable pub arith16_round : ℕ → ℕ → List Candidate
arith16_round orig j =
    let plus = (orig + j) % 2 ^ 16 in
    let minus = (orig + 2 ^ 16 - j) % 2 ^ 16 in
    let plus_be = swap16 (swap16 orig + j) in
    let minus_be = swap16 (swap16 orig + 2 ^ 16 - j) in
    candidate 2 (ltb 0xff (orig % 256 + j) && not (could_be_bitflip (bit_xor orig plus))) plus
    ∷ candidate 2 (ltb (orig % 256) j && not (could_be_bitflip (bit_xor orig minus))) minus
    ∷ candidate 2 (ltb 0xff (orig / 256 + j) && not (could_be_bitflip (bit_xor orig plus_be)))
        plus_be
    ∷ candidate 2 (ltb (orig / 256) j && not (could_be_bitflip (bit_xor orig minus_be))) minus_be
    ∷ []

-- arith 32/8: only where more than two bytes change.
unfoldable pub arith32_round : ℕ → ℕ → List Candidate
arith32_round orig j =
    let plus = (orig + j) % 2 ^ 32 in
    let minus = (orig + 2 ^ 32 - j) % 2 ^ 32 in
    let plus_be = swap32 ((swap32 orig + j) % 2 ^ 32) in
    let minus_be = swap32 ((swap32 orig + 2 ^ 32 - j) % 2 ^ 32) in
    candidate 4 (ltb 0xffff (orig % 2 ^ 16 + j) && not (could_be_bitflip (bit_xor orig plus))) plus
    ∷ candidate 4 (ltb (orig % 2 ^ 16) j && not (could_be_bitflip (bit_xor orig minus))) minus
    ∷ candidate 4
        (ltb 0xffff (swap32 orig % 2 ^ 16 + j) && not (could_be_bitflip (bit_xor orig plus_be)))
        plus_be
    ∷ candidate 4 (ltb (swap32 orig % 2 ^ 16) j && not (could_be_bitflip (bit_xor orig minus_be)))
        minus_be
    ∷ []

-- `for (j = 1; j <= ARITH_MAX; j++)`, `left` rounds from `j` on.
unfoldable pub arith_rounds : (ℕ → List Candidate) → ℕ → ℕ → List (List Candidate)
arith_rounds round zero j = []
arith_rounds round (suc left) j = round j ∷ arith_rounds round left (j + 1)

-- interest 8/8: unless a flip or an addition could have made the value.
unfoldable pub interest8_rounds : ℕ → List ℕ → List (List Candidate)
interest8_rounds orig [] = []
interest8_rounds orig (v ∷ vs) =
    (candidate 1 (not (could_be_bitflip (bit_xor orig v) || could_be_arith orig v 1)) v ∷ [])
    ∷ interest8_rounds orig vs

-- A value in the stages of 16 and 32 bits: as it is, and with its bytes swapped if that differs.
unfoldable pub interest_pair : (n : ℕ) (swap : ℕ → ℕ) → ℕ → ℕ → List Candidate
interest_pair n swap orig v =
    candidate n
      (not (could_be_bitflip (bit_xor orig v))
        && not (could_be_arith orig v n)
        && not (could_be_interest orig v n false))
      v
    ∷ candidate n
        (not (v == swap v)
          && not (could_be_bitflip (bit_xor orig (swap v)))
          && not (could_be_arith orig (swap v) n)
          && not (could_be_interest orig (swap v) n true))
        (swap v)
    ∷ []

-- interest 16/8 and 32/8: the old bytes are put back after the last value only.
unfoldable pub interest_round : (n : ℕ) (swap : ℕ → ℕ) → ℕ → List ℕ → List Candidate
interest_round n swap orig [] = []
interest_round n swap orig (v ∷ vs) = interest_pair n swap orig v ++ interest_round n swap orig vs

module _ {S : Type 0} (fuzz_stuff : S → List ℕ → S × Bool) where
  unfoldable pub arith8 : List ℕ → List ℕ → S → Outcome S (Stage S)
  arith8 eff_map =
      try_stage fuzz_stuff eff_map 1 (2 * arith_max)
        (λ orig. arith_rounds (arith8_round orig) arith_max 1)

  unfoldable pub arith16 : List ℕ → List ℕ → S → Outcome S (Stage S)
  arith16 eff_map =
      try_stage fuzz_stuff eff_map 2 (4 * arith_max)
        (λ orig. arith_rounds (arith16_round orig) arith_max 1)

  unfoldable pub arith32 : List ℕ → List ℕ → S → Outcome S (Stage S)
  arith32 eff_map =
      try_stage fuzz_stuff eff_map 4 (4 * arith_max)
        (λ orig. arith_rounds (arith32_round orig) arith_max 1)

  -- `sizeof(interesting_8)` is 9, that of `interesting_16` 38 and that of `interesting_32` 108.
  unfoldable pub interest8 : List ℕ → List ℕ → S → Outcome S (Stage S)
  interest8 eff_map =
      try_stage fuzz_stuff eff_map 1 9 (λ orig. interest8_rounds orig (interesting_8 8))

  unfoldable pub interest16 : List ℕ → List ℕ → S → Outcome S (Stage S)
  interest16 eff_map =
      try_stage fuzz_stuff eff_map 2 38
        (λ orig. interest_round 2 swap16 orig (interesting_16 16) ∷ [])

  unfoldable pub interest32 : List ℕ → List ℕ → S → Outcome S (Stage S)
  interest32 eff_map =
      try_stage fuzz_stuff eff_map 4 54 (λ orig. interest_round 4 swap32 orig interesting_32 ∷ [])
