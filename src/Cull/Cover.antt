-- ===== src/Cull/Cover.antt =====
-- Culling leaves every slot that has a holder covered by a favored entry.
use native.Mathlib.Nat.{one-le-pow}
use nfuzzer.Base.{
  ℕ, zero, suc, ◌+◌, ◌-◌, ◌/◌, ◌%◌, ◌^◌, ◌<◌, ◌==◌, true, false, Option, none, some, List, [], ◌∷◌,
  get_or, replicate, length, ◌≡◌, ◌≢◌, refl, ap, ◌∙◌, arith, ℕ_discrete, sym, Bool-cases, inl, inr,
  min, bit_and, length-replicate, Option-cases,
}
use mathlib.Core.Path.{subst}
use nfuzzer.Base.Bytes.{All, IsBytes}
use nfuzzer.Base.Testbit.{testbit, testbit-complement, testbit-le, testbit-zero, bit_and-pow}
use nfuzzer.Config.{map_size, map_size-words}
use nfuzzer.Bitmap.Minimize.Bits.{bit_at}
use nfuzzer.Score.{Entry, Scores, update}
use nfuzzer.Score.Refs.{update_elim}
use nfuzzer.Score.Traces.{HasBit, IsTraced}
use nfuzzer.Cull.Clear.{clear_mini_lem, length-clear_mini}
use nfuzzer.Cull.Marks.{FilesAgree, MarkFits, SameButMarks, mark_all-AllMarked}
use nfuzzer.Cull.{
  Culling, clear_mini, favor, pick, cull_slot, cull_from, unfavor_all, mark_all, start_cull,
  cull_queue,
}

-- A favored entry whose compacted trace has bit k.
pub record IsCovered (k : ℕ) (s : Scores) : Type 0 where
  pub by : ℕ
  pub mini : List ℕ
  pub favored : (s.entry by).favored ≡ true
  pub trace : (s.entry by).trace_mini ≡ some mini
  pub bit : bit_at mini k ≡ 1

-- What scoring leaves: each holder of a slot has a compacted trace with the slot's bit.
pub record IsReady (s : Scores) : Type 0 where
  pub kept : (k w : ℕ) → get_or s.top_rated k none ≡ some w → (s.entry w).trace_mini ≢ none
  pub traced : IsTraced s.top_rated s
  pub bytes : (w : ℕ) (m : List ℕ) → (s.entry w).trace_mini ≡ some m → IsBytes m

-- The loop's invariant, with the slots below i visited.
record Visited (pow2 : ℕ) (start : Culling) (i : ℕ) (c : Culling) : Type 0 where
  top : c.scores.top_rated ≡ start.scores.top_rated
  queue : c.scores.queue ≡ start.scores.queue
  agree : FilesAgree c
  ready : IsReady c.scores
  size : length c.temp_v ≡ map_size pow2 / 8
  covered : (k : ℕ) → k < map_size pow2 → bit_at c.temp_v k ≡ 0 → IsCovered k c.scores
  seen : (k w : ℕ) → k < i → get_or c.scores.top_rated k none ≡ some w → bit_at c.temp_v k ≡ 0

favor_entry :
    (P : Entry → Type 0) (w p : ℕ) (s : Scores)
    → P (record (s.entry p) { favored = true })
    → P (s.entry p)
    → P ((favor w s).entry p)
unfolding favor
favor_entry P w p s new old =
    update_elim P s.entry w (record (s.entry w) { favored = true }) p (λ e. rw (← e) new) (λ _. old)

favor-IsReady : (w : ℕ) (s : Scores) → IsReady s → IsReady (favor w s)
favor-IsReady w s r = record {
  kept = λ k p held.
      favor_entry (λ e. e.trace_mini ≢ none) w p s (r.kept k p (unfold favor in held))
        (r.kept k p (unfold favor in held));
  traced = λ k p held.
      favor_entry (HasBit k) w p s (r.traced k p (unfold favor in held))
        (r.traced k p (unfold favor in held));
  bytes = λ p.
      favor_entry (λ e. (m : List ℕ) → e.trace_mini ≡ some m → IsBytes m) w p s (r.bytes p)
        (r.bytes p);
}

favor-IsCovered : (k w : ℕ) (s : Scores) → IsCovered k s → IsCovered k (favor w s)
favor-IsCovered k w s c = record {
  by = c.by;
  mini = c.mini;
  favored = favor_entry (λ e. e.favored ≡ true) w c.by s refl c.favored;
  trace = favor_entry (λ e. e.trace_mini ≡ some c.mini) w c.by s c.trace c.trace;
  bit = c.bit;
}

favor_covers :
    (k w : ℕ) (m : List ℕ) (s : Scores)
    → (s.entry w).trace_mini ≡ some m
    → bit_at m k ≡ 1
    → IsCovered k (favor w s)
unfolding favor
favor_covers k w m s e b = record {
  by = w;
  mini = m;
  favored =
      update_elim (λ e. e.favored ≡ true) s.entry w (record (s.entry w) { favored = true }) w
        (λ _. refl) (λ ne. absurd (ne refl));
  trace =
      update_elim (λ e. e.trace_mini ≡ some m) s.entry w (record (s.entry w) { favored = true }) w
        (λ _. e) (λ ne. absurd (ne refl));
  bit = b;
}

module _ (pow2 : ℕ) (start : Culling) (wide : 2 < pow2) where
  cleared :
      (m temp_v : List ℕ) (k : ℕ)
      → IsBytes m
      → length temp_v ≡ map_size pow2 / 8
      → k < map_size pow2
      → bit_at (clear_mini (map_size pow2 / 8) m temp_v) k ≡ min (bit_at temp_v k) (1 - bit_at m k)
  cleared m temp_v k h e lt = ground (
    arith,
    clear_mini_lem (map_size pow2 / 8) m temp_v k h (omega (arith, map_size-words pow2 wide)),
    map_size-words pow2 wide,
  )

  pick-Visited :
      (i w : ℕ) (m : List ℕ) (c : Culling)
      → i < map_size pow2
      → get_or c.scores.top_rated i none ≡ some w
      → (c.scores.entry w).trace_mini ≡ some m
      → Visited pow2 start i c
      → (c' : Culling) × (pick pow2 w c (some m) ≡ some c') × Visited pow2 start (i + 1) c'
  unfolding pick
  pick-Visited i w m c lt held e v = (
    record c { scores = favor w c.scores; temp_v = clear_mini (map_size pow2 / 8) m c.temp_v },
    refl,
    record {
      top = unfold favor in v.top;
      queue = unfold favor in v.queue;
      agree = λ q.
          favor_entry (λ e. c.redundant_file q ≡ e.fs_redundant) w q c.scores (v.agree q)
            (v.agree q);
      ready = favor-IsReady w c.scores v.ready;
      size = length-clear_mini (map_size pow2 / 8) m c.temp_v ∙ v.size;
      covered = λ k below z. elim (ℕ_discrete (bit_at m k) 1) [
        | yes b ↦ favor_covers k w m c.scores e b
        | no nb ↦ favor-IsCovered k w c.scores (v.covered k below (was_clear k below z nb))
      ];
      seen = λ k p below held'. elim (ℕ_discrete k i) [
        | yes same ↦ by_holder k p same (unfold favor in held')
        | no ne ↦ omega (
          arith,
          cleared m c.temp_v k bytes v.size (omega arith),
          v.seen k p (omega arith) (unfold favor in held'),
        )
      ];
    },
  )
    where
      bytes : IsBytes m
      bytes = v.ready.bytes w m e

      was_clear :
          (k : ℕ)
          → k < map_size pow2
          → bit_at (clear_mini (map_size pow2 / 8) m c.temp_v) k ≡ 0
          → bit_at m k ≢ 1
          → bit_at c.temp_v k ≡ 0
      was_clear k below z nb =
          omega (
            arith,
            cleared m c.temp_v k bytes v.size below,
            testbit-le (get_or m (k / 8) 0) (k % 8),
          )

      by_holder :
          (k p : ℕ)
          → k ≡ i
          → get_or c.scores.top_rated k none ≡ some p
          → bit_at (clear_mini (map_size pow2 / 8) m c.temp_v) k ≡ 0
      by_holder k p same found = omega (
        arith,
        cleared m c.temp_v k bytes v.size (omega arith),
        v.ready.traced k w (rw same held) m e,
      )

  -- A slot is passed over when it has no holder or its bit is cleared already.
  pass-Visited :
      (i : ℕ) (c : Culling)
      → ((w : ℕ) → get_or c.scores.top_rated i none ≡ some w → bit_at c.temp_v i ≡ 0)
      → Visited pow2 start i c
      → Visited pow2 start (i + 1) c
  pass-Visited i c done v = record {
    top = v.top;
    queue = v.queue;
    agree = v.agree;
    ready = v.ready;
    size = v.size;
    covered = v.covered;
    seen = λ k p below held. elim (ℕ_discrete k i) [
      | yes same ↦ rw same (done p (rw (← same) held))
      | no ne ↦ v.seen k p (omega arith) held
    ];
  }

  cull_slot-Visited :
      (i : ℕ) (c : Culling) (t : Option ℕ)
      → i < map_size pow2
      → get_or c.scores.top_rated i none ≡ t
      → Visited pow2 start i c
      → (c' : Culling) × (cull_slot pow2 i c t ≡ some c') × Visited pow2 start (i + 1) c'
  unfolding cull_slot
  cull_slot-Visited i c none lt held v = (c, refl, pass-Visited i c (λ w found. cc (held, found)) v)
  cull_slot-Visited i c (some w) lt held v =
      elim (Bool-cases (bit_and (get_or c.temp_v (i / 8) 0) (2 ^ (i % 8)) == 0)) [
        | inl clear ↦ (c, rw clear, pass-Visited i c (λ _ _. no_bit clear) v)
        | inr set_bit ↦ elim (Option-cases (c.scores.entry w).trace_mini) [
          | inl gone ↦ absurd (v.ready.kept i w held gone)
          | inr (m, e) ↦ rw (set_bit, e) (pick-Visited i w m c lt held e v)
        ]
      ]
    where
      no_bit :
          (bit_and (get_or c.temp_v (i / 8) 0) (2 ^ (i % 8)) == 0) ≡ true → bit_at c.temp_v i ≡ 0
      no_bit h = grind (
        arith,
        bit_and-pow (get_or c.temp_v (i / 8) 0) (i % 8),
        one-le-pow (i % 8) 2 (omega arith),
      )

  cull_from-Visited :
      (left i : ℕ) (c : Culling)
      → i + left ≡ map_size pow2
      → Visited pow2 start i c
      → (c' : Culling) × (cull_from pow2 left i c ≡ some c') × Visited pow2 start (map_size pow2) c'
  unfolding cull_from
  cull_from-Visited zero i c e v =
      let e' : i ≡ map_size pow2 = omega arith in (c, refl, rw (← e') v)
  cull_from-Visited (suc left) i c e v =
      let (c', found, v') =
        cull_slot-Visited i c (get_or c.scores.top_rated i none) (omega arith) refl v in
      rw (found, cull_from) (cull_from-Visited left (i + 1) c' (omega arith) v')

replicate_or : (n k : ℕ) → k < n → get_or {A = ℕ} (replicate n 255) k 0 ≡ 255
replicate_or zero k h = absurd (omega arith)
replicate_or (suc n) zero h = refl
replicate_or (suc n) (suc k) h = replicate_or n k (omega arith)

unfavor_all-trace :
    (queue : List ℕ) (entry : ℕ → Entry) (p : ℕ)
    → (unfavor_all queue entry p).trace_mini ≡ (entry p).trace_mini
unfolding unfavor_all
unfavor_all-trace [] entry p = refl
unfavor_all-trace (q ∷ queue) entry p =
    unfavor_all-trace queue (update entry q (record (entry q) { favored = false })) p
    ∙ update_elim (λ e. e.trace_mini ≡ (entry p).trace_mini) entry q
        (record (entry q) { favored = false }) p (λ e. rw e) (λ _. refl)

unfavor_all-mark :
    (queue : List ℕ) (entry : ℕ → Entry) (p : ℕ)
    → (unfavor_all queue entry p).fs_redundant ≡ (entry p).fs_redundant
unfolding unfavor_all
unfavor_all-mark [] entry p = refl
unfavor_all-mark (q ∷ queue) entry p =
    unfavor_all-mark queue (update entry q (record (entry q) { favored = false })) p
    ∙ update_elim (λ e. e.fs_redundant ≡ (entry p).fs_redundant) entry q
        (record (entry q) { favored = false }) p (λ e. rw e) (λ _. refl)

start_cull-Visited :
    (pow2 : ℕ) (c : Culling)
    → 2 < pow2
    → IsReady c.scores
    → FilesAgree c
    → Visited pow2 c 0 (start_cull pow2 c)
unfolding start_cull
start_cull-Visited pow2 c wide r agree = record {
  top = refl;
  queue = refl;
  agree = λ q. agree q ∙ sym (unfavor_all-mark c.scores.queue c.scores.entry q);
  ready = record {
    kept = λ k w held. rw (unfavor_all-trace c.scores.queue c.scores.entry w) (r.kept k w held);
    traced = λ k w held m e.
        r.traced k w held m (sym (unfavor_all-trace c.scores.queue c.scores.entry w) ∙ e);
    bytes = λ w m e. r.bytes w m (sym (unfavor_all-trace c.scores.queue c.scores.entry w) ∙ e);
  };
  size = length-replicate (map_size pow2 / 8) 255;
  covered = λ k below z. absurd (omega (arith, z, all_set k below));
  seen = λ k w below held. absurd (omega arith);
}
  where
    all_set : (k : ℕ) → k < map_size pow2 → bit_at (replicate (map_size pow2 / 8) 255) k ≡ 1
    all_set k below =
        ap (λ w. testbit w (k % 8))
          (replicate_or (map_size pow2 / 8) (k / 8) (omega (arith, map_size-words pow2 wide)))
        ∙ ones (k % 8) (omega arith)
      where
        ones : (j : ℕ) → j < 8 → testbit 255 j ≡ 1
        ones j h = omega (arith, testbit-complement 8 0 j (omega arith) h, testbit-zero j)

marks-IsCovered :
    (k : ℕ) (c c' : Culling) → SameButMarks c c' → IsCovered k c.scores → IsCovered k c'.scores
marks-IsCovered k c c' same v = record {
  by = v.by;
  mini = v.mini;
  favored = same.favored v.by ∙ v.favored;
  trace = same.trace v.by ∙ v.trace;
  bit = v.bit;
}

cull_queue_runs :
    (pow2 : ℕ) (c c₁ c₂ : Culling)
    → c.scores.score_changed ≡ true
    → cull_from pow2 (map_size pow2) 0 (start_cull pow2 c) ≡ some c₁
    → mark_all c₁.scores.queue c₁ ≡ some c₂
    → cull_queue pow2 false c ≡ some c₂
unfolding cull_queue
cull_queue_runs pow2 c c₁ c₂ changed found marked = ground arith

-- Culling, when it is not skipped, does not fail, and leaves every slot below MAP_SIZE that has a
-- holder covered by a favored entry, every entry of the queue marked as redundant exactly if it is
-- not favored, and a file for exactly the marked entries. It is assumed that each holder has a
-- compacted trace with its slot's bit, and that at the start the files agree with the marks.
pub cull_queue_lem :
    (pow2 : ℕ) (c : Culling)
    → 2 < pow2
    → c.scores.score_changed ≡ true
    → IsReady c.scores
    → FilesAgree c
    → (c' : Culling) × (cull_queue pow2 false c ≡ some c')
      × ((k w : ℕ)
          → k < map_size pow2
          → get_or c.scores.top_rated k none ≡ some w
          → IsCovered k c'.scores)
      × All (MarkFits c') c.scores.queue
      × FilesAgree c'
cull_queue_lem pow2 c wide changed r agree =
    let (c₁, found, v) =
      cull_from-Visited pow2 c wide (map_size pow2) 0 (start_cull pow2 c) (omega arith)
        (start_cull-Visited pow2 c wide r agree) in
    let m = mark_all-AllMarked c₁.scores.queue c₁ v.agree in
    (
      m.after,
      cull_queue_runs pow2 c c₁ m.after changed found m.returns,
      λ k w below held.
          marks-IsCovered k c₁ m.after m.same
            (v.covered k below (v.seen k w below (rw v.top held))),
      subst (All (MarkFits m.after)) v.queue m.fits,
      m.agree,
    )
