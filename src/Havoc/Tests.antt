-- ===== src/Havoc/Tests.antt =====
-- The helpers of fuzz_one() on concrete values.
use nfuzzer.Base.{
  ℕ, ◌*◌, ◌-◌, ◌^◌, ◌≤◌, ◌<◌, min, ◌≡◌, refl, arith, true, ◌&&◌, ◌↔◌, ◌⊎◌, if◌then◌else◌, ltb, leb,
}
use nfuzzer.Havoc.Blocks.{blk_small, blk_xl, choose_block_len, choose_block_len-bounds}
use nfuzzer.Havoc.Energy.{
  Doubles, Averages, Case, calculate_score, is_valid_enough, calculate_score-bounds,
}
use nfuzzer.Havoc.Dupes.{could_be_bitflip, shift_to_first}
use nfuzzer.Havoc.Dupes.Flips.{IsPattern, could_be_bitflip_lem}

choose_block_len-bounds_example :
    (1 ≤ choose_block_len 4 true 700 5 10 123456)
    × (choose_block_len 4 true 700 5 10 123456
        ≤ min 700 (if true && ltb 1 4 then blk_xl else blk_small))
choose_block_len-bounds_example =
    choose_block_len-bounds 4 true 700 5 10 123456 (omega arith) (omega arith)

-- Exact comparisons of natural numbers.
abbrev exact : Doubles
exact = record {
  above = λ x percent y. ltb (y * 100) (x * percent);
  below = λ x percent y. ltb (x * percent) (y * 100);
}

abbrev averages : Averages
averages = record {
  avg_exec_us = 1000;
  avg_bitmap_size = 200;
  validity_avg = 10;
  smart_mode = true;
}

abbrev fast_case : Case
fast_case = record {
  exec_us = 200;
  bitmap_size = 900;
  handicap = 5;
  depth = 9;
  parsed = true;
  validity = 80;
}

calculate_score-bounds_example :
    (2 ≤ (calculate_score exact averages fast_case).score)
    × ((calculate_score exact averages fast_case).score
        ≤ (if is_valid_enough averages fast_case then 3200 else 1600))
    × ((calculate_score exact averages fast_case).handicap_left
        ≡ (if leb 4 fast_case.handicap then fast_case.handicap - 4 else fast_case.handicap - 1))
calculate_score-bounds_example = calculate_score-bounds exact averages fast_case

-- Four bits, shifted by 5.
abbrev four_bits : ℕ
four_bits = 0x1e0

could_be_bitflip_lem_example : (could_be_bitflip four_bits ≡ true) ↔ (
    four_bits ≡ 0
    ⊎ (bits : ℕ) × (sh : ℕ) × (sh < 32) × (four_bits ≡ bits * 2 ^ sh) × IsPattern bits sh)
could_be_bitflip_lem_example = could_be_bitflip_lem four_bits (omega arith)

could_be_bitflip_run : could_be_bitflip four_bits ≡ true
unfolding could_be_bitflip shift_to_first
could_be_bitflip_run = refl
