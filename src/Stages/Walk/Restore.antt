-- ===== src/Stages/Walk/Restore.antt =====
-- The walking bit flips put every bit back.
use nfuzzer.Base.{ℕ, zero, suc, ◌+◌, ◌-◌, ◌*◌, ◌≤◌, ◌≡◌, refl, ap, ◌∙◌, arith, Bool, List, length}
use nfuzzer.Stages.Flip.{flip_bits, flip_bits-twice}
use nfuzzer.Stages.Tries.{Stage, Going, >>=-Going}
use nfuzzer.Stages.Tries.Restore.{run_target-Going}
use nfuzzer.Stages.Walk.{
  Collecting, collect, walk_bit, walk_bits, bitflip, offer, after_byte, collect_bit, collect_bits,
  bitflip_collecting,
}

module _ {S : Type 0} (fuzz_stuff : S → List ℕ → S × Bool) (buf : List ℕ) where
  walk_bit-out_buf :
      (n bit : ℕ) (t : Stage S)
      → bit + n ≤ 8 * length buf
      → t.out_buf ≡ buf
      → Going
          (λ (t' : Stage S).
            (t'.out_buf ≡ buf) × (t'.stage_cur ≡ t.stage_cur) × (t'.stage_max ≡ t.stage_max))
          (walk_bit fuzz_stuff n bit t)
  unfolding walk_bit
  walk_bit-out_buf n bit t h e =
      >>=-Going
        (λ (t' : Stage S).
          (t'.out_buf ≡ flip_bits buf bit n)
          × (t'.stage_cur ≡ t.stage_cur)
          × (t'.stage_max ≡ t.stage_max))
        _ _ _
        (run_target-Going fuzz_stuff _ (record t { out_buf = flip_bits t.out_buf bit n })
          (λ s. (ap (λ (b : List ℕ). flip_bits b bit n) e, refl, refl)))
        (λ t' o.
          (ap (λ (b : List ℕ). flip_bits b bit n) o.0 ∙ flip_bits-twice buf bit n h, o.1, o.2))

  walk_bits-out_buf :
      (n left : ℕ) (t : Stage S)
      → t.stage_cur + left + n ≤ 8 * length buf + 1
      → t.out_buf ≡ buf
      → t.stage_max ≡ t.stage_cur + left
      → Going
          (λ (t' : Stage S). (t'.out_buf ≡ buf) × (t'.stage_cur ≡ t'.stage_max))
          (walk_bits fuzz_stuff n left t)
  unfolding walk_bits
  walk_bits-out_buf n zero t h e m = (e, omega arith)
  walk_bits-out_buf n (suc left) t h e m =
      >>=-Going _ _ (walk_bit fuzz_stuff n t.stage_cur t) _
        (walk_bit-out_buf n t.stage_cur t (omega arith) e)
        (λ t' o.
          walk_bits-out_buf n left (record t' { stage_cur = t'.stage_cur + 1 }) (omega (arith, o.1))
            o.0 (omega (arith, o.1, o.2)))

  -- A walk of `n` bits over the buffer leaves it as it was, after one run for each position.
  pub bitflip-out_buf :
      (n : ℕ) (s : S)
      → 1 ≤ n
      → n ≤ 8 * length buf
      → Going
          (λ (t : Stage S). (t.out_buf ≡ buf) × (t.stage_cur ≡ t.stage_max))
          (bitflip fuzz_stuff n buf s)
  unfolding bitflip
  bitflip-out_buf n s p h =
      walk_bits-out_buf n (8 * length buf + 1 - n) _ (omega arith) refl (omega arith)

  module _ (cksum_of : S → ℕ) (add_auto : S → List ℕ → S) (exec_cksum : ℕ) where
    -- The collecting of tokens leaves the buffer and the counters alone.
    abbrev SameStage : Stage S → Stage S → Type 0
    SameStage t u =
        (t.out_buf ≡ u.out_buf) × (t.stage_cur ≡ u.stage_cur) × (t.stage_max ≡ u.stage_max)

    offer-SameStage :
        (c : Collecting S)
        → SameStage (offer fuzz_stuff cksum_of add_auto exec_cksum c).stage c.stage
    unfolding offer
    offer-SameStage c = ground arith

    after_byte-SameStage :
        (bit : ℕ) (c : Collecting S)
        → SameStage (after_byte fuzz_stuff cksum_of add_auto exec_cksum bit c).stage c.stage
    unfolding after_byte offer collect
    after_byte-SameStage bit c = ground arith

    collect_bit-out_buf :
        (dumb_mode : Bool) (c : Collecting S)
        → c.stage.stage_cur + 1 ≤ 8 * length buf
        → c.stage.out_buf ≡ buf
        → Going
            (λ (c' : Collecting S).
              (c'.stage.out_buf ≡ buf)
              × (c'.stage.stage_cur ≡ c.stage.stage_cur)
              × (c'.stage.stage_max ≡ c.stage.stage_max))
            (collect_bit fuzz_stuff cksum_of add_auto exec_cksum dumb_mode c)
    unfolding collect_bit
    collect_bit-out_buf dumb_mode c h e =
        >>=-Going _ _ (walk_bit fuzz_stuff 1 c.stage.stage_cur c.stage) _
          (walk_bit-out_buf 1 c.stage.stage_cur c.stage h e)
          (λ t o. ground (arith, o, after_byte-SameStage t.stage_cur (record c { stage = t })))

    collect_bits-out_buf :
        (dumb_mode : Bool) (left : ℕ) (c : Collecting S)
        → c.stage.stage_cur + left ≤ 8 * length buf
        → c.stage.out_buf ≡ buf
        → c.stage.stage_max ≡ c.stage.stage_cur + left
        → Going
            (λ (c' : Collecting S).
              (c'.stage.out_buf ≡ buf) × (c'.stage.stage_cur ≡ c'.stage.stage_max))
            (collect_bits fuzz_stuff cksum_of add_auto exec_cksum dumb_mode left c)
    unfolding collect_bits
    collect_bits-out_buf dumb_mode zero c h e m = (e, omega arith)
    collect_bits-out_buf dumb_mode (suc left) c h e m =
        >>=-Going _ _ (collect_bit fuzz_stuff cksum_of add_auto exec_cksum dumb_mode c) _
          (collect_bit-out_buf dumb_mode c (omega arith) e)
          (λ c' o.
            collect_bits-out_buf dumb_mode left
              (record c' { stage = record (c'.stage) { stage_cur = c'.stage.stage_cur + 1 } })
              (omega (arith, o.1)) o.0 (omega (arith, o.1, o.2)))

    -- bitflip 1/1, with the collecting of tokens, leaves the buffer as it was after one run for each
    -- bit, whatever the checksums are and whatever maybe_add_auto() does.
    pub bitflip_collecting-out_buf :
        (dumb_mode : Bool) (s : S)
        → Going
            (λ (c : Collecting S).
              (c.stage.out_buf ≡ buf) × (c.stage.stage_cur ≡ c.stage.stage_max))
            (bitflip_collecting fuzz_stuff cksum_of add_auto exec_cksum dumb_mode buf s)
    unfolding bitflip_collecting
    bitflip_collecting-out_buf dumb_mode s =
        collect_bits-out_buf dumb_mode (8 * length buf) _ (omega arith) refl (omega arith)
