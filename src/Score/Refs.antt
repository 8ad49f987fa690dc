-- ===== src/Score/Refs.antt =====
-- The reference counts: `tc_ref` is the number of slots that an entry holds, and an entry has a
-- compacted trace exactly while it holds one.
use nfuzzer.Base.{
  ℕ, zero, suc, ◌+◌, ◌-◌, ◌^◌, ◌≤◌, ◌<◌, ◌==◌, ltb, if◌then◌else◌, false, Option, none, some, List,
  [], ◌∷◌, get_or, set, length, ◌≡◌, ◌≢◌, refl, ap, ◌∙◌, arith, length-set, ℕ_discrete, ==_iff,
  get_or-set_self, Bool-cases, inl, inr, sym,
}
use mathlib.Core.Path.{subst}
use nfuzzer.Config.{map_size}
use nfuzzer.Score.{
  Entry, Scores, update, fav_factor, release, win, contest, score_step, score_from,
  update_bitmap_score, dropped, taken,
}

-- 1 where the slot is held by p.
abbrev pub holds : ℕ → Option ℕ → ℕ
holds p none = 0
holds p (some w) = if w == p then 1 else 0

-- The number of slots that p holds.
abbrev pub slots : ℕ → List (Option ℕ) → ℕ
slots p [] = 0
slots p (t ∷ top) = holds p t + slots p top

pub slots-set :
    (p i : ℕ) (t : Option ℕ) (top : List (Option ℕ))
    → i < length top
    → slots p (set top i t) + holds p (get_or top i none) ≡ slots p top + holds p t
slots-set p i t [] h = absurd (omega arith)
slots-set p zero t (x ∷ top) h = omega arith
slots-set p (suc i) t (x ∷ top) h = omega (arith, slots-set p i t top (omega arith))

slots-le : (p : ℕ) (top : List (Option ℕ)) → slots p top ≤ length top
slots-le p [] = omega arith
slots-le p (none ∷ top) = omega (arith, slots-le p top)
slots-le p (some w ∷ top) = ground (arith, slots-le p top)

-- A trace is kept exactly while the count is not 0.
abbrev pub KeepsTrace : Entry → Type 0
KeepsTrace e = (e.tc_ref ≡ 0 → e.trace_mini ≡ none) × (e.tc_ref ≢ 0 → e.trace_mini ≢ none)

-- What holds of the new value at q and of the others holds of the updated function.
pub update_elim {ℓ κ} :
    {A : Type ℓ} (P : A → Type κ) (f : ℕ → A) (q : ℕ) (a : A) (p : ℕ)
    → (p ≡ q → P a)
    → (p ≢ q → P (f p))
    → P (update f q a p)
update_elim P f q a p same other = elim (ℕ_discrete p q) [
  | yes e ↦ rw ((==_iff p q).1 e) (same e)
  | no ne ↦ rw (differ ne) (other ne)
]
  where
    differ : p ≢ q → (p == q) ≡ false
    differ ne = ground arith

-- What an entry's count is, and that its trace follows the count.
abbrev pub Counts : ℕ → Entry → Type 0
Counts n e = (e.tc_ref ≡ n) × KeepsTrace e

taken_lem :
    (pow2 n : ℕ) (trace : List ℕ) (e : Entry)
    → n + 1 < 2 ^ 32
    → Counts n e
    → Counts (n + 1) (taken pow2 trace e)
taken_lem pow2 n trace e small h = ground arith

dropped_lem : (n : ℕ) (e : Entry) → 0 < n → n < 2 ^ 32 → Counts n e → Counts (n - 1) (dropped e)
dropped_lem n e pos small h = ground arith

-- The counts are the slots of `top`, which is `top_rated` between two steps.
pub record IsCounted (pow2 : ℕ) (top : List (Option ℕ)) (s : Scores) : Type 0 where
  pub size : length top ≡ map_size pow2
  pub counts : (p : ℕ) → Counts (slots p top) (s.entry p)

module _ (pow2 i : ℕ) (top : List (Option ℕ)) (s : Scores) (small : map_size pow2 < 2 ^ 32)
    (v : IsCounted pow2 top s) (below : i < length top) where
  lost :
      (w : ℕ)
      → get_or top i none ≡ some w
      → (slots w (set top i none) + 1 ≡ slots w top)
        × ((p : ℕ) → p ≢ w → slots p (set top i none) ≡ slots p top)
  lost w held = (
    ground (arith, slots-set w i none top below),
    λ p ne. ground (arith, slots-set p i none top below),
  )

  won :
      (q : ℕ)
      → get_or top i none ≡ none
      → (slots q (set top i (some q)) ≡ slots q top + 1)
        × ((p : ℕ) → p ≢ q → slots p (set top i (some q)) ≡ slots p top)
  won q free = (
    ground (arith, slots-set q i (some q) top below),
    λ p ne. ground (arith, slots-set p i (some q) top below),
  )

  pub release-IsCounted :
      (w : ℕ) → get_or top i none ≡ some w → IsCounted pow2 (set top i none) (release w s)
  unfolding release
  release-IsCounted w held = record {
    size = length-set top i none ∙ v.size;
    counts = λ p.
        update_elim (Counts (slots p (set top i none))) s.entry w (dropped (s.entry w)) p
          (λ e. rw e (
            subst (λ n. Counts n (dropped (s.entry w))) less
              (dropped_lem (slots w top) (s.entry w) (omega (arith, (lost w held).0))
                (omega (arith, slots-le w top, v.size)) (v.counts w))))
          (λ ne. subst (λ n. Counts n (s.entry p)) (sym ((lost w held).1 p ne)) (v.counts p));
  }
    where
      less : slots w top - 1 ≡ slots w (set top i none)
      less = omega (arith, (lost w held).0)

  pub win-IsCounted :
      (q : ℕ) → get_or top i none ≡ none → IsCounted pow2 (set top i (some q)) (win pow2 q i s)
  unfolding win
  win-IsCounted q free = record {
    size = length-set top i (some q) ∙ v.size;
    counts = λ p.
        update_elim (Counts (slots p (set top i (some q)))) s.entry q
          (taken pow2 s.trace_bits (s.entry q)) p
          (λ e. rw e (
            subst (λ n. Counts n (taken pow2 s.trace_bits (s.entry q))) (sym (won q free).0)
              (taken_lem pow2 (slots q top) s.trace_bits (s.entry q) room (v.counts q))))
          (λ ne. subst (λ n. Counts n (s.entry p)) (sym ((won q free).1 p ne)) (v.counts p));
  }
    where
      room : slots q top + 1 < 2 ^ 32
      room = omega (
        arith,
        (won q free).0,
        slots-le q (set top i (some q)),
        length-set top i (some q),
        v.size,
      )

pub set_twice {ℓ} : {A : Type ℓ} (xs : List A) (i : ℕ) (a b : A) → set (set xs i a) i b ≡ set xs i b
set_twice [] i a b = refl
set_twice (x ∷ xs) zero a b = refl
set_twice (x ∷ xs) (suc i) a b = ap (λ t. x ∷ t) (set_twice xs i a b)

module _ (pow2 q factor : ℕ) (small : map_size pow2 < 2 ^ 32) where
  pub contest-IsCounted :
      (i : ℕ) (s : Scores) (t : Option ℕ)
      → i < length s.top_rated
      → get_or s.top_rated i none ≡ t
      → IsCounted pow2 s.top_rated s
      → let s' = contest pow2 q factor i s t in IsCounted pow2 s'.top_rated s'
  unfolding contest win release
  contest-IsCounted i s none below held v = win-IsCounted pow2 i s.top_rated s small v below q held
  contest-IsCounted i s (some w) below held v =
      elim (Bool-cases (ltb (fav_factor (s.entry w)) factor)) [
        | inl worse ↦ rw worse v
        | inr better ↦ rw better (
            subst (λ top. IsCounted pow2 top (win pow2 q i (release w s)))
              (set_twice s.top_rated i none (some q))
              (win-IsCounted pow2 i (set s.top_rated i none) (release w s) small
                (release-IsCounted pow2 i s.top_rated s small v below w held) (rw length-set below)
                q (get_or-set_self s.top_rated i none none below)))
      ]

  score_from-IsCounted :
      (left i : ℕ) (s : Scores)
      → i + left ≡ map_size pow2
      → IsCounted pow2 s.top_rated s
      → let s' = score_from pow2 q factor left i s in IsCounted pow2 s'.top_rated s'
  unfolding score_from score_step
  score_from-IsCounted zero i s e v = v
  score_from-IsCounted (suc left) i s e v =
      score_from-IsCounted left (i + 1) (score_step pow2 q factor i s) (omega arith)
        (elim (Bool-cases (get_or s.trace_bits i 0 == 0)) [
          | inl clean ↦ rw clean v
          | inr hit ↦
              rw hit
                (contest-IsCounted i s (get_or s.top_rated i none) (omega (arith, v.size)) refl v)
        ])

-- Scoring an entry keeps the reference counts exact, if MAP_SIZE is below 2 ^ 32: every `tc_ref` is
-- the number of slots that its entry holds, and an entry has a compacted trace exactly while it
-- holds a slot.
pub update_bitmap_score-IsCounted :
    (pow2 q : ℕ) (s : Scores)
    → map_size pow2 < 2 ^ 32
    → IsCounted pow2 s.top_rated s
    → let s' = update_bitmap_score pow2 q s in IsCounted pow2 s'.top_rated s'
unfolding update_bitmap_score
update_bitmap_score-IsCounted pow2 q s small v =
    score_from-IsCounted pow2 q (fav_factor (s.entry q)) small (map_size pow2) 0 s (omega arith) v
