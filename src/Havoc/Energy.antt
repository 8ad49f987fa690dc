-- ===== src/Havoc/Energy.antt =====
-- calculate_score of fuzzer/afl-fuzz.c: how long the havoc stage may run on a queue entry.
use nfuzzer.Base.{
  ℕ, ◌-◌, ◌*◌, ◌/◌, ◌%◌, ◌^◌, ◌≤◌, ◌≡◌, arith, Bool, not, ◌&&◌, ◌||◌, if◌then◌else◌, ltb, leb, ◌==◌,
}

-- HAVOC_MAX_MULT
abbrev pub havoc_max_mult : ℕ
havoc_max_mult = 16

-- What calculate_score reads: fields of the entry, and the averages it starts with.
pub record Case : Type 0 where
  pub exec_us : ℕ
  pub bitmap_size : ℕ
  pub handicap : ℕ
  pub depth : ℕ
  pub parsed : Bool
  pub validity : ℕ

pub record Averages : Type 0 where
  pub avg_exec_us : ℕ
  pub avg_bitmap_size : ℕ
  pub validity_avg : ℕ
  pub smart_mode : Bool

-- The comparisons of a product with a decimal fraction, made on doubles: `x * (percent / 100)`
-- above or below `y`.
pub record Doubles : Type 0 where
  pub above : ℕ → ℕ → ℕ → Bool
  pub below : ℕ → ℕ → ℕ → Bool

unfoldable pub by_speed : Doubles → ℕ → ℕ → ℕ
by_speed d us avg =
    if d.above us 10 avg
    then 10
    else (if d.above us 25 avg
        then 25
        else (if d.above us 50 avg
            then 50
            else (if d.above us 75 avg
                then 75
                else (if ltb (us * 4 % 2 ^ 64) avg
                    then 300
                    else (if ltb (us * 3 % 2 ^ 64) avg
                        then 200
                        else (if ltb (us * 2 % 2 ^ 64) avg then 150 else 100))))))

-- `perf_score *= 1.5` and the like truncate when they are stored.
unfoldable pub by_coverage : Doubles → ℕ → ℕ → ℕ → ℕ
by_coverage d size avg score =
    if d.above size 30 avg
    then score * 3
    else (if d.above size 50 avg
        then score * 2
        else (if d.above size 75 avg
            then score * 3 / 2
            else (if ltb (size * 3 % 2 ^ 32) avg
                then score / 4
                else (if ltb (size * 2 % 2 ^ 32) avg
                    then score / 2
                    else (if d.below size 150 avg then score * 3 / 4 else score)))))

unfoldable pub by_handicap : ℕ → ℕ → ℕ
by_handicap handicap score =
    if leb 4 handicap then score * 4 else (if handicap == 0 then score else score * 2)

-- What is left of the handicap.
unfoldable pub used_handicap : ℕ → ℕ
used_handicap handicap =
    if leb 4 handicap then handicap - 4 else (if handicap == 0 then handicap else handicap - 1)

unfoldable pub by_depth : ℕ → ℕ → ℕ
by_depth depth score =
    if leb depth 3
    then score
    else (if leb depth 7
        then score * 2
        else (if leb depth 13 then score * 3 else (if leb depth 25 then score * 4 else score * 5)))

unfoldable pub capped : ℕ → ℕ
capped score = if ltb (havoc_max_mult * 100) score then havoc_max_mult * 100 else score

-- The validity of an entry, or the average if the entry has not been parsed.
unfoldable pub is_valid_enough : Averages → Case → Bool
is_valid_enough a c =
    a.smart_mode && (c.parsed && leb 50 c.validity || not c.parsed && leb 50 a.validity_avg)

pub record Energy : Type 0 where
  pub score : ℕ
  pub handicap_left : ℕ

unfoldable pub calculate_score : Doubles → Averages → Case → Energy
calculate_score d a c =
    let speed = by_speed d c.exec_us a.avg_exec_us in
    let covered = by_coverage d c.bitmap_size a.avg_bitmap_size speed in
    let final = capped (by_depth c.depth (by_handicap c.handicap covered)) in
    record {
      score = if is_valid_enough a c then final * 2 else final;
      handicap_left = used_handicap c.handicap;
    }

by_speed-bounds : (d : Doubles) (us avg : ℕ) → (10 ≤ by_speed d us avg) × (by_speed d us avg ≤ 300)
unfolding by_speed
by_speed-bounds d us avg = ground arith

by_coverage-positive :
    (d : Doubles) (size avg score : ℕ) → 10 ≤ score → 2 ≤ by_coverage d size avg score
unfolding by_coverage
by_coverage-positive d size avg score h = ground arith

by_handicap-ge : (handicap score : ℕ) → score ≤ by_handicap handicap score
unfolding by_handicap
by_handicap-ge handicap score = ground arith

by_depth-ge : (depth score : ℕ) → score ≤ by_depth depth score
unfolding by_depth
by_depth-ge depth score = ground arith

capped-bounds : (score : ℕ) → 2 ≤ score → (2 ≤ capped score) × (capped score ≤ 1600)
unfolding capped
capped-bounds score h = ground arith

-- Whatever the averages, the entry and the comparisons of doubles are, the score of an entry is
-- at least 2 and at most 1600, which is HAVOC_MAX_MULT * 100, or at most 3200 when smart mode
-- finds the entry valid enough; the handicap drops by 4 at 4 or more, and by 1, not below 0,
-- under 4.
pub calculate_score-bounds :
    (d : Doubles) (a : Averages) (c : Case)
    → (2 ≤ (calculate_score d a c).score)
      × ((calculate_score d a c).score ≤ (if is_valid_enough a c then 3200 else 1600))
      × ((calculate_score d a c).handicap_left
          ≡ (if leb 4 c.handicap then c.handicap - 4 else c.handicap - 1))
unfolding calculate_score used_handicap
calculate_score-bounds d a c =
    let speed = by_speed-bounds d c.exec_us a.avg_exec_us in
    let covered =
      by_coverage-positive d c.bitmap_size a.avg_bitmap_size (by_speed d c.exec_us a.avg_exec_us)
        speed.0 in
    let handicapped =
      by_handicap c.handicap
        (by_coverage d c.bitmap_size a.avg_bitmap_size (by_speed d c.exec_us a.avg_exec_us)) in
    ground (
      arith,
      covered,
      by_handicap-ge c.handicap
          (by_coverage d c.bitmap_size a.avg_bitmap_size (by_speed d c.exec_us a.avg_exec_us)),
      by_depth-ge c.depth handicapped,
      capped-bounds (by_depth c.depth handicapped),
    )
