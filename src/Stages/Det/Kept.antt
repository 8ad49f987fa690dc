-- ===== src/Stages/Det/Kept.antt =====
-- The deterministic part as a whole gives back the buffer that it was given.
use nfuzzer.Base.{ℕ, ◌<◌, ◌≡◌, refl, ap, arith, Bool, false, ltb, ◌==◌, List, length, take}
use nfuzzer.Base.Bytes.{IsBytes}
use nfuzzer.Stages.Tries.{Stage, Outcome, going, abandoned, Going, >>=-Going, branch-Going}
use nfuzzer.Stages.Walk.{Collecting, bitflip}
use nfuzzer.Stages.Walk.Restore.{bitflip-out_buf, bitflip_collecting-out_buf}
use nfuzzer.Stages.Effector.{bitflip_words, settle}
use nfuzzer.Stages.Tries.Restore.{IsRestored}
use nfuzzer.Stages.Effector.Restore.{IsProbed, bitflip_bytes-IsProbed, bitflip_words-IsRestored}
use nfuzzer.Stages.Values.{arith8, arith16, arith32, interest8, interest16, interest32}
use nfuzzer.Stages.Values.Restore.{
  arith8-IsRestored, arith16-IsRestored, arith32-IsRestored, interest8-IsRestored,
  interest16-IsRestored, interest32-IsRestored,
}
use nfuzzer.Stages.Extras.{user_over, user_insert, auto_over, use_auto_extras}
use nfuzzer.Stages.Extras.Restore.{
  AreSortedFrom, user_over-out_buf, auto_over-out_buf, user_insert-out_buf,
}
use nfuzzer.Stages.Det.{
  Engine, Job, Point, after, unless, flips, ariths, interests, dictionary, byte_flips,
  deterministic,
}

module _ {S : Type 0} (engine : Engine S) (job : Job) (buf : List ℕ) (bytes : IsBytes buf)
    (some_byte : 0 < length buf) where
  abbrev HasBuf : Point S → Type 0
  HasBuf p = p.out_buf ≡ buf

  -- What a stage that counts its values leaves.
  from_restored :
      (o : Outcome S (Stage S))
      → Going (IsRestored buf 0) o
      → Going (λ (t : Stage S). t.out_buf ≡ buf) o
  from_restored (going t) h = h.0
  from_restored (abandoned s) h = tt

  after-HasBuf :
      (o : Outcome S (Stage S))
      → Going (λ (t : Stage S). t.out_buf ≡ buf) o
      → Going HasBuf (after engine o)
  unfolding after
  after-HasBuf (going t) h = h
  after-HasBuf (abandoned s) h = tt

  unless-HasBuf :
      (skip : Bool) (stage : List ℕ → S → Outcome S (Stage S)) (p : Point S)
      → HasBuf p
      → (skip ≡ false → (s : S) → Going (λ (t : Stage S). t.out_buf ≡ buf) (stage buf s))
      → Going HasBuf (unless engine skip stage p)
  unfolding unless
  unless-HasBuf skip stage p e h =
      branch-Going HasBuf skip _ _ (λ t. e)
        (λ f. after-HasBuf (stage p.out_buf p.world) (rw e (h f p.world)))

  -- A stage that starts from the buffer at a point.
  from_point :
      (stage : List ℕ → S → Outcome S (Stage S)) (p : Point S)
      → HasBuf p
      → ((s : S) → Going (λ (t : Stage S). t.out_buf ≡ buf) (stage buf s))
      → Going HasBuf (after engine (stage p.out_buf p.world))
  from_point stage p e h = after-HasBuf (stage p.out_buf p.world) (rw e (h p.world))

  ariths-HasBuf :
      (eff_map : List ℕ) (p : Point S) → HasBuf p → Going HasBuf (ariths engine job eff_map p)
  unfolding ariths
  ariths-HasBuf eff_map p e =
      let f = engine.fuzz_stuff in
      branch-Going HasBuf job.no_arith _ _ (λ skip. e)
        (λ go.
          >>=-Going HasBuf HasBuf _ _
            (from_point (arith8 f eff_map) p e
              (λ s. from_restored _ (arith8-IsRestored f eff_map buf s bytes (omega arith))))
            (λ p8 e8.
              >>=-Going HasBuf HasBuf _ _
                (unless-HasBuf (ltb (length p.out_buf) 2) (arith16 f eff_map) p8 e8 (λ long s.
                  from_restored _
                    (arith16-IsRestored f eff_map buf s bytes (ground (arith, long, ap length e)))))
                (λ p16 e16.
                  unless-HasBuf (ltb (length p.out_buf) 4) (arith32 f eff_map) p16 e16 (λ long s.
                    from_restored _ (
                      arith32-IsRestored f eff_map buf s bytes
                        (ground (arith, long, ap length e)))))))

  interests-HasBuf :
      (eff_map : List ℕ) (p : Point S) → HasBuf p → Going HasBuf (interests engine job eff_map p)
  unfolding interests
  interests-HasBuf eff_map p e =
      let f = engine.fuzz_stuff in
      >>=-Going HasBuf HasBuf _ _
        (from_point (interest8 f eff_map) p e
          (λ s. from_restored _ (interest8-IsRestored f eff_map buf s bytes (omega arith))))
        (λ p8 e8.
          branch-Going HasBuf job.no_arith _ _ (λ skip. e8)
            (λ go.
              >>=-Going HasBuf HasBuf _ _
                (unless-HasBuf (ltb (length p.out_buf) 2) (interest16 f eff_map) p8 e8 (λ long s.
                  from_restored _ (
                    interest16-IsRestored f eff_map buf s bytes
                      (ground (arith, long, ap length e)))))
                (λ p16 e16.
                  unless-HasBuf (ltb (length p.out_buf) 4) (interest32 f eff_map) p16 e16 (λ long s.
                    from_restored _ (
                      interest32-IsRestored f eff_map buf s bytes
                        (ground (arith, long, ap length e)))))))

  dictionary-HasBuf :
      (eff_map : List ℕ) (p : Point S)
      → AreSortedFrom 0 job.extras
      → ((s : S) → AreSortedFrom 0 (take use_auto_extras (engine.a_extras s)))
      → HasBuf p
      → Going HasBuf (dictionary engine job eff_map p)
  unfolding dictionary
  dictionary-HasBuf eff_map p sorted auto_sorted e =
      let f = engine.fuzz_stuff in
      let none = length job.extras == 0 in
      >>=-Going HasBuf HasBuf _ _
        (unless-HasBuf none (user_over f engine.ur eff_map job.extras) p e
          (λ go s. user_over-out_buf f buf engine.ur eff_map job.extras s sorted))
        (λ over e1.
          >>=-Going HasBuf HasBuf _ _
            (unless-HasBuf none (user_insert f job.extras) over e1
              (λ go s. user_insert-out_buf f buf job.extras s))
            (λ inserted e2.
              let auto = engine.a_extras inserted.world in
              unless-HasBuf (length auto == 0) (auto_over f eff_map auto) inserted e2
                (λ go s. auto_over-out_buf f buf eff_map auto s (auto_sorted inserted.world))))

  byte_flips-HasBuf :
      (s : S) → Going (λ (r : Point S × List ℕ). HasBuf r.0) (byte_flips engine job buf s)
  unfolding byte_flips
  byte_flips-HasBuf s =
      let f = engine.fuzz_stuff in
      let End : Point S × List ℕ → Type 0 = λ r. HasBuf r.0 in
      >>=-Going (IsProbed f buf engine.cksum_of job.exec_cksum job.dumb_mode 0) End _ _
        (bitflip_bytes-IsProbed f buf engine.cksum_of job.exec_cksum job.dumb_mode s some_byte)
        (λ p e.
          let eff_map = (settle (length buf) p.effects).0.eff_map in
          >>=-Going HasBuf End _ _
            (unless-HasBuf (ltb (length buf) 2) (bitflip_words f 2 eff_map) _ e.0 (λ long w.
              from_restored _
                (bitflip_words-IsRestored f buf eff_map 2 16 w refl bytes (ground (arith, long)))))
            (λ p16 e16.
              >>=-Going HasBuf End _ _
                (unless-HasBuf (ltb (length buf) 4) (bitflip_words f 4 eff_map) p16 e16 (λ long w.
                  from_restored _ (
                    bitflip_words-IsRestored f buf eff_map 4 32 w refl bytes
                      (ground (arith, long)))))
                (λ p32 e32. e32)))

  flips-HasBuf : (s : S) → Going (λ (r : Point S × List ℕ). HasBuf r.0) (flips engine job buf s)
  unfolding flips
  flips-HasBuf s =
      let f = engine.fuzz_stuff in
      let End : Point S × List ℕ → Type 0 = λ r. HasBuf r.0 in
      let Walked : Stage S → Type 0 = λ t. (t.out_buf ≡ buf) × (t.stage_cur ≡ t.stage_max) in
      >>=-Going (λ (c : Collecting S). Walked c.stage) End _ _
        (bitflip_collecting-out_buf f buf engine.cksum_of engine.add_auto job.exec_cksum
          job.dumb_mode s)
        (λ c e1.
          >>=-Going Walked End (bitflip f 2 c.stage.out_buf c.stage.world) _
            (rw e1.0 (bitflip-out_buf f buf 2 c.stage.world (omega arith) (omega arith)))
            (λ t2 e2.
              >>=-Going Walked End (bitflip f 4 t2.out_buf t2.world) _
                (rw e2.0 (bitflip-out_buf f buf 4 t2.world (omega arith) (omega arith)))
                (λ t4 e4. rw e4.0 (byte_flips-HasBuf t4.world))))

  -- All the deterministic stages of an entry that is not empty, in their order, with and without
  -- arithmetic, a dictionary and automatic tokens: if no run has the entry abandoned, `out_buf` is
  -- the input at the end, whatever the runs, the checksums and the random numbers are. The tokens
  -- of the dictionary have to be in order of length, and so have to be, at all times, those of the
  -- first USE_AUTO_EXTRAS automatic tokens, as load_extras() and maybe_add_auto() sort them.
  pub deterministic-out_buf :
      (s : S)
      → AreSortedFrom 0 job.extras
      → ((w : S) → AreSortedFrom 0 (take use_auto_extras (engine.a_extras w)))
      → Going (λ (p : Point S). p.out_buf ≡ buf) (deterministic engine job buf s)
  unfolding deterministic
  deterministic-out_buf s sorted auto_sorted =
      >>=-Going (λ (r : Point S × List ℕ). HasBuf r.0) HasBuf _ _ (flips-HasBuf s)
        (λ r e. >>=-Going HasBuf HasBuf _ _ (ariths-HasBuf r.1 r.0 e) (λ p' e'.
          >>=-Going HasBuf HasBuf _ _ (interests-HasBuf r.1 p' e')
            (λ p'' e''. dictionary-HasBuf r.1 p'' sorted auto_sorted e'')))
