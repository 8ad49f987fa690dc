-- ===== src/Cull/Marks.antt =====
-- `mark_as_redundant` over the queue: the marks and the files under `.state/redundant_edges`.
use nfuzzer.Base.{
  ℕ, ◌==◌, Bool, true, false, some, List, [], ◌∷◌, ◌≡◌, ◌≢◌, refl, ◌∙◌, ℕ_discrete, Bool-cases, inl,
  inr, not, ◌⊎◌,
}
use nfuzzer.Base.Bytes.{All}
use nfuzzer.Score.{Entry, update}
use nfuzzer.Score.Refs.{update_elim}
use nfuzzer.Cull.{Culling, mark_as_redundant, mark_all}

-- An entry has a file exactly when it is marked.
abbrev pub FilesAgree : Culling → Type 0
FilesAgree c = (q : ℕ) → c.redundant_file q ≡ (c.scores.entry q).fs_redundant

-- Marking changes only marks.
pub record SameButMarks (c c' : Culling) : Type 0 where
  pub favored : (p : ℕ) → (c'.scores.entry p).favored ≡ (c.scores.entry p).favored
  pub trace : (p : ℕ) → (c'.scores.entry p).trace_mini ≡ (c.scores.entry p).trace_mini
  pub top : c'.scores.top_rated ≡ c.scores.top_rated
  pub queue : c'.scores.queue ≡ c.scores.queue

-- What one call does: no failure, the mark as asked for, all else as before.
record Marked (q : ℕ) (b : Bool) (c : Culling) : Type 0 where
  after : Culling
  returns : mark_as_redundant q b c ≡ some after
  agree : FilesAgree after
  same : SameButMarks c after
  mark : (after.scores.entry q).fs_redundant ≡ b
  others : (p : ℕ) → p ≢ q → (after.scores.entry p).fs_redundant ≡ (c.scores.entry p).fs_redundant

marked : ℕ → Bool → Culling → Culling
marked q b c = record c {
  scores = record (c.scores) {
    entry = update c.scores.entry q (record (c.scores.entry q) { fs_redundant = b });
  };
  redundant_file = update c.redundant_file q b;
}

entry-marked :
    (P : Entry → Type 0) (q : ℕ) (b : Bool) (c : Culling) (p : ℕ)
    → (p ≡ q → P (record (c.scores.entry q) { fs_redundant = b }))
    → (p ≢ q → P (c.scores.entry p))
    → P ((marked q b c).scores.entry p)
unfolding marked
entry-marked P q b c p =
    update_elim P c.scores.entry q (record (c.scores.entry q) { fs_redundant = b }) p

marks_change :
    (q : ℕ) (b : Bool) (c : Culling)
    → FilesAgree c
    → mark_as_redundant q b c ≡ some (marked q b c)
    → Marked q b c
marks_change q b c agree e = record {
  after = marked q b c;
  returns = e;
  agree = λ p.
      unfold marked in
      elim (Bool-cases (p == q)) [ inl is_q ↦ rw is_q | inr not_q ↦ rw not_q (agree p) ];
  same = record {
    favored = λ p.
        entry-marked (λ x. x.favored ≡ (c.scores.entry p).favored) q b c p (λ x. rw x) (λ _. refl);
    trace = λ p.
        entry-marked (λ x. x.trace_mini ≡ (c.scores.entry p).trace_mini) q b c p (λ x. rw x)
          (λ _. refl);
    top = unfold marked in refl;
    queue = unfold marked in refl;
  };
  mark = entry-marked (λ x. x.fs_redundant ≡ b) q b c q (λ _. refl) (λ ne. absurd (ne refl));
  others = λ p ne.
      entry-marked (λ x. x.fs_redundant ≡ (c.scores.entry p).fs_redundant) q b c p
        (λ x. absurd (ne x)) (λ _. refl);
}

unchanged :
    (q : ℕ) (b : Bool) (c : Culling)
    → FilesAgree c
    → (c.scores.entry q).fs_redundant ≡ b
    → mark_as_redundant q b c ≡ some c
    → Marked q b c
unchanged q b c agree m e = record {
  after = c;
  returns = e;
  agree = agree;
  same = record { favored = λ _. refl; trace = λ _. refl; top = refl; queue = refl };
  mark = m;
  others = λ _ _. refl;
}

mark_as_redundant-Marked : (q : ℕ) (b : Bool) (c : Culling) → FilesAgree c → Marked q b c
unfolding mark_as_redundant marked
mark_as_redundant-Marked q true c agree = elim (Bool-cases (c.scores.entry q).fs_redundant) [
  | inl is_set ↦ unchanged q true c agree is_set (rw is_set)
  | inr is_clear ↦ marks_change q true c agree (rw (is_clear, agree q ∙ is_clear))
]
mark_as_redundant-Marked q false c agree = elim (Bool-cases (c.scores.entry q).fs_redundant) [
  | inl is_set ↦ marks_change q false c agree (rw (is_set, agree q ∙ is_set))
  | inr is_clear ↦ unchanged q false c agree is_clear (rw is_clear)
]

-- An entry's mark is the opposite of being favored.
abbrev pub MarkFits : Culling → ℕ → Type 0
MarkFits c p = (c.scores.entry p).fs_redundant ≡ not (c.scores.entry p).favored

-- What the whole loop does.
pub record AllMarked (queue : List ℕ) (c : Culling) : Type 0 where
  pub after : Culling
  pub returns : mark_all queue c ≡ some after
  pub agree : FilesAgree after
  pub same : SameButMarks c after
  pub fits : All (MarkFits after) queue
  pub stable : (p : ℕ) → MarkFits c p → MarkFits after p

one-stable :
    (q p : ℕ) (c : Culling) (m : Marked q (not (c.scores.entry q).favored) c)
    → (p ≡ q) ⊎ MarkFits c p
    → MarkFits m.after p
one-stable q p c m (inl e) = rw (e, m.same.favored q) m.mark
one-stable q p c m (inr fits) = elim (ℕ_discrete p q) [
  | yes e ↦ rw (e, m.same.favored q) m.mark
  | no ne ↦ rw (m.same.favored p) (m.others p ne ∙ fits)
]

pub mark_all-AllMarked : (queue : List ℕ) (c : Culling) → FilesAgree c → AllMarked queue c
unfolding mark_all
mark_all-AllMarked [] c agree = record {
  after = c;
  returns = refl;
  agree = agree;
  same = record { favored = λ _. refl; trace = λ _. refl; top = refl; queue = refl };
  fits = tt;
  stable = λ _ h. h;
}
mark_all-AllMarked (q ∷ queue) c agree =
    let m = mark_as_redundant-Marked q (not (c.scores.entry q).favored) c agree in
    let rest = mark_all-AllMarked queue m.after m.agree in
    record {
      after = rest.after;
      returns = rw (m.returns, mark_all) rest.returns;
      agree = rest.agree;
      same = record {
        favored = λ p. rest.same.favored p ∙ m.same.favored p;
        trace = λ p. rest.same.trace p ∙ m.same.trace p;
        top = rest.same.top ∙ m.same.top;
        queue = rest.same.queue ∙ m.same.queue;
      };
      fits = (rest.stable q (one-stable q q c m (inl refl)), rest.fits);
      stable = λ p h. rest.stable p (one-stable q p c m (inr h));
    }
