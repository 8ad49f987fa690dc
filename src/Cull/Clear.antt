-- ===== src/Cull/Clear.antt =====
-- The inner loop of culling, bit by bit.
use nfuzzer.Base.{
  ℕ, zero, suc, ◌-◌, ◌/◌, ◌%◌, ◌<◌, ◌==◌, ltb, if◌then◌else◌, List, get_or, set, length, ◌≡◌, refl,
  ◌∙◌, arith, length-set, get_or-set_self, get_or-set_ne, ℕ_discrete, min, bit_and,
}
use nfuzzer.Base.Bytes.{IsBytes, get_or-lt}
use nfuzzer.Base.Testbit.{testbit-bit_and, testbit-complement, testbit-le, testbit-zero}
use nfuzzer.Bitmap.Minimize.Bits.{bit_at}
use nfuzzer.Cull.{clear_step, clear_mini}

-- One round at byte j, on bit k.
clear_byte :
    (mini temp_v : List ℕ) (j k : ℕ)
    → IsBytes mini
    → k / 8 < length temp_v
    → bit_at (set temp_v j (bit_and (get_or temp_v j 0) (255 - get_or mini j 0))) k
      ≡ (if k / 8 == j then min (bit_at temp_v k) (1 - bit_at mini k) else bit_at temp_v k)
clear_byte mini temp_v j k h lt = elim (ℕ_discrete j (k / 8)) [
  | yes e ↦
      let written : get_or (set temp_v j (bit_and (get_or temp_v j 0) (255 - get_or mini j 0)))
            (k / 8) 0
          ≡ bit_and (get_or temp_v (k / 8) 0) (255 - get_or mini (k / 8) 0) =
        rw e (
          get_or-set_self temp_v (k / 8)
            (bit_and (get_or temp_v (k / 8) 0) (255 - get_or mini (k / 8) 0)) 0 lt) in
      ground (
        arith,
        written,
        testbit-bit_and (get_or temp_v (k / 8) 0) (255 - get_or mini (k / 8) 0) (k % 8),
        testbit-complement 8 (get_or mini (k / 8) 0) (k % 8) (get_or-lt mini (k / 8) h)
            (omega arith),
      )
  | no ne ↦ ground (
    arith,
    get_or-set_ne temp_v j (k / 8) (bit_and (get_or temp_v j 0) (255 - get_or mini j 0)) 0 ne,
  )
]

bit_at-clear_step :
    (mini temp_v : List ℕ) (j k : ℕ)
    → IsBytes mini
    → k / 8 < length temp_v
    → bit_at (clear_step j mini temp_v) k
      ≡ (if k / 8 == j then min (bit_at temp_v k) (1 - bit_at mini k) else bit_at temp_v k)
unfolding clear_step
bit_at-clear_step mini temp_v j k h lt = ground (
  arith,
  clear_byte mini temp_v j k h lt,
  no_bit,
  testbit-zero (k % 8),
  testbit-le (get_or temp_v (k / 8) 0) (k % 8),
)
  where
    no_bit : k / 8 ≡ j → get_or mini j 0 ≡ 0 → bit_at mini k ≡ 0
    no_bit e z = rw (e, z) (testbit-zero (k % 8))

length-clear_step :
    (j : ℕ) (mini temp_v : List ℕ) → length (clear_step j mini temp_v) ≡ length temp_v
unfolding clear_step
length-clear_step j mini temp_v =
    ground (arith, length-set temp_v j (bit_and (get_or temp_v j 0) (255 - get_or mini j 0)))

-- The inner loop removes from `temp_v` the bits of the compacted trace, in the bytes below j.
pub clear_mini_lem :
    (j : ℕ) (mini temp_v : List ℕ) (k : ℕ)
    → IsBytes mini
    → k / 8 < length temp_v
    → bit_at (clear_mini j mini temp_v) k
      ≡ (if ltb (k / 8) j then min (bit_at temp_v k) (1 - bit_at mini k) else bit_at temp_v k)
unfolding clear_mini
clear_mini_lem zero mini temp_v k h lt = ground arith
clear_mini_lem (suc j) mini temp_v k h lt = ground (
  arith,
  clear_mini_lem j mini (clear_step j mini temp_v) k h (rw (length-clear_step j mini temp_v) lt),
  bit_at-clear_step mini temp_v j k h lt,
)

pub length-clear_mini :
    (j : ℕ) (mini temp_v : List ℕ) → length (clear_mini j mini temp_v) ≡ length temp_v
unfolding clear_mini
length-clear_mini zero mini temp_v = refl
length-clear_mini (suc j) mini temp_v =
    length-clear_mini j mini (clear_step j mini temp_v) ∙ length-clear_step j mini temp_v
