-- ===== src/Bitmap/Minimize/Bits.antt =====
-- The bits of the compacted map.
use nfuzzer.Base.{
  ℕ, zero, suc, ◌+◌, ◌/◌, ◌%◌, ◌^◌, ◌<◌, ◌==◌, ltb, leb, ◌&&◌, if◌then◌else◌, bit_or, List, get_or,
  set, length, ◌≡◌, refl, ◌∙◌, arith, not, length-set, get_or-set_self, get_or-set_ne, ℕ_discrete,
}
use nfuzzer.Base.Testbit.{testbit, testbit-bit_or, testbit-pow, testbit-le}
use nfuzzer.Config.{map_size}
use nfuzzer.Bitmap.Minimize.{minimize_step, minimize_from, minimize_bits}

-- Bit i of a bitmap with one bit for each byte of a trace.
abbrev pub bit_at : List ℕ → ℕ → ℕ
bit_at mini i = testbit (get_or mini (i / 8) 0) (i % 8)

bit_at-set :
    (dst : List ℕ) (i k : ℕ)
    → k / 8 < length dst
    → bit_at (set dst (i / 8) (bit_or (get_or dst (i / 8) 0) (2 ^ (i % 8)))) k
      ≡ (if i == k then 1 else bit_at dst k)
bit_at-set dst i k h = elim (ℕ_discrete (i / 8) (k / 8)) [
  | yes e ↦
      let written : get_or (set dst (i / 8) (bit_or (get_or dst (i / 8) 0) (2 ^ (i % 8)))) (k / 8) 0
          ≡ bit_or (get_or dst (k / 8) 0) (2 ^ (i % 8)) =
        rw e (get_or-set_self dst (k / 8) (bit_or (get_or dst (k / 8) 0) (2 ^ (i % 8))) 0 h) in
      ground (
        arith,
        written,
        testbit-bit_or (get_or dst (k / 8) 0) (2 ^ (i % 8)) (k % 8),
        testbit-pow (i % 8) (k % 8),
        testbit-le (get_or dst (k / 8) 0) (k % 8),
      )
  | no ne ↦
      ground (
        arith,
        get_or-set_ne dst (i / 8) (k / 8) (bit_or (get_or dst (i / 8) 0) (2 ^ (i % 8))) 0 ne,
      )
]

length-step : (src : List ℕ) (i : ℕ) (dst : List ℕ) → length (minimize_step src i dst) ≡ length dst
unfolding minimize_step
length-step src i dst =
    ground (arith, length-set dst (i / 8) (bit_or (get_or dst (i / 8) 0) (2 ^ (i % 8))))

bit_at-step :
    (src : List ℕ) (i : ℕ) (dst : List ℕ) (k : ℕ)
    → k / 8 < length dst
    → bit_at (minimize_step src i dst) k
      ≡ (if i == k && not (get_or src k 0 == 0) then 1 else bit_at dst k)
unfolding minimize_step
bit_at-step src i dst k h = ground (arith, bit_at-set dst i k h)

minimize_from_lem :
    (left i : ℕ) (dst src : List ℕ) (k : ℕ)
    → k / 8 < length dst
    → bit_at (minimize_from left i dst src) k
      ≡ (if leb i k && ltb k (i + left) && not (get_or src k 0 == 0) then 1 else bit_at dst k)
unfolding minimize_from
minimize_from_lem zero i dst src k h = ground arith
minimize_from_lem (suc left) i dst src k h =
    let h' : k / 8 < length (minimize_step src i dst) = rw (length-step src i dst) h in
    ground (
      arith,
      minimize_from_lem left (i + 1) (minimize_step src i dst) src k h',
      bit_at-step src i dst k h,
    )

pub length-minimize_from :
    (left i : ℕ) (dst src : List ℕ) → length (minimize_from left i dst src) ≡ length dst
unfolding minimize_from
length-minimize_from zero i dst src = refl
length-minimize_from (suc left) i dst src =
    length-minimize_from left (i + 1) (minimize_step src i dst) src ∙ length-step src i dst

-- With room in `dst`, bit k afterwards is 1 where byte k of the trace is set, for k below MAP_SIZE,
-- and what it was before everywhere else.
pub minimize_bits_lem :
    (pow2 : ℕ) (dst src : List ℕ) (k : ℕ)
    → k / 8 < length dst
    → bit_at (minimize_bits pow2 dst src) k
      ≡ (if ltb k (map_size pow2) && not (get_or src k 0 == 0) then 1 else bit_at dst k)
unfolding minimize_bits
minimize_bits_lem pow2 dst src k h = ground (arith, minimize_from_lem (map_size pow2) 0 dst src k h)
