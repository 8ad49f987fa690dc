-- ===== src/Mutate/Stage/Ends.antt =====
-- The havoc stage ends, with the input back in `out_buf`.
use nfuzzer.Base.{
  ℕ, zero, suc, ◌+◌, ◌*◌, ◌≤◌, ◌<◌, ◌≡◌, refl, ap, arith, Bool, true, false, ltb, leb, ◌==◌, max,
  List, [], ◌∷◌, ◌++◌, length, take, replicate, some, none, Option, length-take, length-append,
  length-replicate, Bool-cases, inl, inr, leb→le, ltb→lt,
}
use nfuzzer.Stages.Words.{put, overwrite}
use nfuzzer.Stages.Extras.{max_file}
use nfuzzer.Mutate.Draw.{Ensures, Holds}
use nfuzzer.Mutate.Switch.{Setting, Tweaked, Next, on, exited, mutate}
use nfuzzer.Mutate.Switch.Bounds.{IsFile, IsFine, mutate-IsFine}
use nfuzzer.Mutate.Stage.{
  Fuzzer, Havoc, StageEnd, RunEnd, finished, abandoned, exit_called, faulted, unfinished, again,
  stop, havoc_runs, restored, prolong, run_mutated, after_mutation, havoc_run, havoc_loop,
  havoc_stage, havoc_min,
}

-- Bytes that are written over a buffer of their length are what it holds.
overwrite-whole : (w b : List ℕ) → length b ≡ length w → overwrite w b ≡ w
unfolding overwrite
overwrite-whole [] [] h = refl
overwrite-whole [] (x ∷ b) h = absurd (omega arith)
overwrite-whole (v ∷ w) [] h = absurd (omega arith)
overwrite-whole (v ∷ w) (x ∷ b) h = ap (λ t. v ∷ t) (overwrite-whole w b (omega arith))

restored_lem : (in_buf b : List ℕ) → restored in_buf b ≡ in_buf
unfolding restored put
restored_lem in_buf b =
    let len = length in_buf in
    overwrite-whole in_buf (take len (b ++ replicate len 0)) (
      omega (
        arith,
        length-take len (b ++ replicate len 0),
        length-append b (replicate len 0),
        length-replicate len (let z : ℕ = 0 in z),
      ))

mul-le : (k a b : ℕ) → a ≤ b → k * a ≤ k * b
mul-le k a b h = grind arith

module _ {G : Type 0} (fz : Fuzzer G) (s : Setting) (in_buf : List ℕ) (runs score : ℕ) where
  abbrev top : ℕ
  top = max score 3200

  -- What the rounds keep.
  record IsGoing (h : Havoc G) : Type 0 where
    out_buf : h.out_buf ≡ in_buf
    scored : 1 ≤ h.perf_score
    capped : h.perf_score ≤ top
    bounded : h.stage_max ≤ runs * h.perf_score
    lasting : havoc_min ≤ h.stage_max

  prolong-IsGoing : (n : ℕ) (h : Havoc G) → IsGoing h → IsGoing (prolong n h)
  unfolding prolong
  prolong-IsGoing n h v = elim (Bool-cases (n == h.havoc_queued)) [
    | inl e ↦ rw e v
    | inr e ↦ rw e (elim (Bool-cases (leb h.perf_score 1600)) [
      | inl low ↦ rw low record {
        out_buf = v.out_buf;
        scored = omega (arith, v.scored);
        capped = omega (arith, leb→le h.perf_score 1600 low);
        bounded = omega (arith, v.bounded);
        lasting = omega (arith, v.lasting);
      }
      | inr high ↦ rw high record {
        out_buf = v.out_buf;
        scored = v.scored;
        capped = v.capped;
        bounded = v.bounded;
        lasting = v.lasting;
      }
    ])
  ]

  prolong-stage_cur : (n : ℕ) (h : Havoc G) → (prolong n h).stage_cur ≡ h.stage_cur
  unfolding prolong
  prolong-stage_cur n h = ground arith

  prolong-stage_max : (n : ℕ) (h : Havoc G) → h.stage_max ≤ (prolong n h).stage_max
  unfolding prolong
  prolong-stage_max n h = ground arith

  -- How the stage may end. The process exits only in smart mode, for an entry with a chunk tree,
  -- outside splicing.
  pub HasEnded : StageEnd G → Type 0
  HasEnded (finished h) =
      (h.out_buf ≡ in_buf)
      × (h.stage_cur ≡ h.stage_max)
      × (havoc_min ≤ h.stage_max)
      × (h.stage_max ≤ runs * top)
  HasEnded (abandoned g) = Unit
  HasEnded (exit_called g) = (s.smart_mode ≡ true) × (s.splicing ≡ false) × (s.has_chunk ≡ true)
  HasEnded faulted = ⊥
  HasEnded unfinished = ⊥

  -- A run that goes on keeps what holds of the rounds, and `stage_cur`.
  GoesOn : Havoc G → RunEnd G → Type 0
  GoesOn h (again h') = IsGoing h' × (h'.stage_cur ≡ h.stage_cur) × (h.stage_max ≤ h'.stage_max)
  GoesOn h (stop e) = HasEnded e

  run_mutated-GoesOn :
      (h : Havoc G) (b : List ℕ) (g : G) → IsGoing h → GoesOn h (run_mutated fz s in_buf h b g)
  unfolding run_mutated GoesOn HasEnded
  run_mutated-GoesOn h b g v = go (fz.fuzz_stuff g b)
    where
      go :
          (r : G × Bool)
          → GoesOn h (elim r.1 [
            | true ↦ stop (abandoned r.0)
            | false ↦ again (
                prolong
                  (fz.queued_paths r.0)
                  (record h { world = r.0; out_buf = restored in_buf b }))
          ])
      go (g', true) = tt
      go (g', false) =
          let h' = record h { world = g'; out_buf = restored in_buf b } in
          let v' : IsGoing h' = record {
            out_buf = restored_lem in_buf b;
            scored = v.scored;
            capped = v.capped;
            bounded = v.bounded;
            lasting = v.lasting;
          } in
          (
            prolong-IsGoing (fz.queued_paths g') h' v',
            prolong-stage_cur (fz.queued_paths g') h',
            prolong-stage_max (fz.queued_paths g') h',
          )

  module _ (started : 0 < fz.src.queue_cycle) (bound : ℕ) (roomy : max_file ≤ bound)
      (file : IsFile bound in_buf) where
    havoc_run-GoesOn : (h : Havoc G) → IsGoing h → GoesOn h (havoc_run fz s in_buf h)
    unfolding havoc_run after_mutation
    havoc_run-GoesOn h v = go (mutate fz.src s h.out_buf h.world) (good.at h.world)
      where
        good : Ensures (IsFine s bound) (mutate fz.src s h.out_buf)
        good = rw v.out_buf (mutate-IsFine fz.src s bound started roomy in_buf file)

        go :
            (r : Option (Next Tweaked × G))
            → Holds (IsFine s bound) r
            → GoesOn h (elim r [
              | none ↦ stop faulted
              | some (next, g) ↦ after_mutation fz s in_buf h next g
            ])
        go none fine = absurd fine
        go (some (on t, g)) fine = run_mutated-GoesOn h t.out_buf g v
        go (some (exited, g)) fine = unfold GoesOn HasEnded in fine

    all_done :
        (h : Havoc G)
        → IsGoing h
        → h.stage_cur ≤ h.stage_max
        → ltb h.stage_cur h.stage_max ≡ false
        → HasEnded (finished h)
    unfolding HasEnded
    all_done h v order done = (
      v.out_buf,
      ground (arith, done, order),
      v.lasting,
      omega (arith, v.bounded, mul-le runs h.perf_score top v.capped),
    )

    havoc_loop-HasEnded :
        (fuel : ℕ) (h : Havoc G)
        → IsGoing h
        → h.stage_cur ≤ h.stage_max
        → runs * top < fuel + h.stage_cur
        → HasEnded (havoc_loop fz s in_buf fuel h)
    unfolding havoc_loop
    havoc_loop-HasEnded zero h v order enough =
        absurd (omega (arith, v.bounded, order, mul-le runs h.perf_score top v.capped))
    havoc_loop-HasEnded (suc fuel) h v order enough =
        choose (havoc_loop-HasEnded fuel) (ltb h.stage_cur h.stage_max) refl
      where
        next :
            (r : RunEnd G)
            → GoesOn h r
            → h.stage_cur < h.stage_max
            → ((h' : Havoc G)
                → IsGoing h'
                → h'.stage_cur ≤ h'.stage_max
                → runs * top < fuel + h'.stage_cur
                → HasEnded (havoc_loop fz s in_buf fuel h'))
            → HasEnded (elim r [
              | stop e ↦ e
              | again h' ↦ havoc_loop fz s in_buf fuel (record h' { stage_cur = h'.stage_cur + 1 })
            ])
        next (stop e) goes below rest = unfold GoesOn in goes
        next (again h') goes below rest =
            let kept : IsGoing h' × (h'.stage_cur ≡ h.stage_cur) × (h.stage_max ≤ h'.stage_max) =
              unfold GoesOn in goes in
            let v' = kept.0 in
            rest (record h' { stage_cur = h'.stage_cur + 1 })
              (record {
                out_buf = v'.out_buf;
                scored = v'.scored;
                capped = v'.capped;
                bounded = v'.bounded;
                lasting = v'.lasting;
              })
              (omega (arith, kept.1, kept.2, below)) (omega (arith, kept.1, enough))

        choose :
            ((h' : Havoc G)
              → IsGoing h'
              → h'.stage_cur ≤ h'.stage_max
              → runs * top < fuel + h'.stage_cur
              → HasEnded (havoc_loop fz s in_buf fuel h'))
            → (more : Bool) → ltb h.stage_cur h.stage_max ≡ more
            → HasEnded (elim more [
              | false ↦ finished h
              | true ↦ elim (havoc_run fz s in_buf h) [
                | stop e ↦ e
                | again h' ↦
                    havoc_loop fz s in_buf fuel (record h' { stage_cur = h'.stage_cur + 1 })
              ]
            ])
        choose rest false e = all_done h v order e
        choose rest true e =
            next (havoc_run fz s in_buf h) (havoc_run-GoesOn h v) (ltb→lt h.stage_cur h.stage_max e)
              rest

no_division : (n : ℕ) → 0 < n → (n == 0) ≡ false
no_division n h = ground arith

-- The havoc stage, outside and within splicing, on a file of 1 to `bound` bytes, `bound` being
-- MAX_FILE or more, in a queue cycle above 0, with a score and `havoc_div` above 0: whatever the runs
-- do and whatever is drawn, it ends, and no tweak accesses memory outside a buffer. Unless a run has
-- the entry abandoned, or the process exits, which it does only in smart mode, for an entry with a
-- chunk tree, outside splicing, the input is back in `out_buf`, the number of the runs is
-- `stage_max`, and this is at least HAVOC_MIN and at most the first `stage_max` times the score, or
-- times 3200 if the score is below that.
pub havoc_stage_lem :
    {G : Type 0} (fz : Fuzzer G) (s : Setting) (in_buf : List ℕ) (bound : ℕ) (doing_det : Bool)
    (perf_score havoc_div : ℕ) (g : G)
    → 0 < fz.src.queue_cycle
    → max_file ≤ bound
    → IsFile bound in_buf
    → 0 < perf_score
    → 0 < havoc_div
    → HasEnded fz s in_buf
        (havoc_runs s.splicing doing_det perf_score havoc_div)
        perf_score
        (havoc_stage fz s in_buf doing_det perf_score havoc_div g)
unfolding havoc_stage
havoc_stage_lem fz s in_buf bound doing_det perf_score havoc_div g started roomy file scored
      divides =
    let runs = havoc_runs s.splicing doing_det perf_score havoc_div in
    rw (no_division havoc_div divides, havoc_stage)
      (havoc_loop-HasEnded fz s in_buf runs perf_score started bound roomy file
        (runs * max perf_score 3200 + 1) _
        (record {
          out_buf = refl;
          scored = scored;
          capped = omega arith;
          bounded = omega (arith, mul-le runs 1 perf_score scored);
          lasting = unfold havoc_runs in omega arith;
        })
        (omega arith) (omega arith))
