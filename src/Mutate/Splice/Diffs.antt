-- ===== src/Mutate/Splice/Diffs.antt =====
-- Where two files differ, and what their splice is.
use nfuzzer.Base.{
  ℕ, zero, suc, ◌+◌, ◌-◌, ◌≤◌, ◌<◌, ◌≡◌, ◌≢◌, ◌⊎◌, inl, inr, ◌↔◌, refl, ap, ap₂, sym, ◌∙◌, arith,
  true, ltb, ◌||◌, ◌==◌, if◌then◌else◌, Option, none, some, List, [], ◌∷◌, length, get_or, take,
  min, Bool-cases, dec_lt, ==_iff,
}
use nfuzzer.Havoc.Blocks.{ur}
use nfuzzer.Stages.Words.{put, bytes_at, overwrite, length-put}
use nfuzzer.Mutate.Splice.{Located, or_at, locate_from, locate_diffs, splice_between, splice_files}

abbrev pub common : List ℕ → List ℕ → ℕ
common xs ys = min (length xs) (length ys)

abbrev pub SameAt : List ℕ → List ℕ → ℕ → Type 0
SameAt xs ys k = get_or xs k 0 ≡ get_or ys k 0

-- The files agree as far as both go.
abbrev pub Agree : List ℕ → List ℕ → Type 0
Agree xs ys = (k : ℕ) → k < common xs ys → SameAt xs ys k

-- `i` is the first offset, and `j` the last, at which they differ.
pub record Differ (xs ys : List ℕ) (i j : ℕ) : Type 0 where
  pub order : i ≤ j
  pub inside : j < common xs ys
  pub at_first : ¬ SameAt xs ys i
  pub at_last : ¬ SameAt xs ys j
  pub before : (k : ℕ) → k < i → SameAt xs ys k
  pub behind : (k : ℕ) → j < k → k < common xs ys → SameAt xs ys k

abbrev Answer : ℕ → List ℕ → List ℕ → Located → Type 0
Answer pos xs ys d =
    Agree xs ys × (locate_from pos xs ys d ≡ d)
    ⊎ ((i : ℕ) × (j : ℕ) × Differ xs ys i j
        × (locate_from pos xs ys d
            ≡ record { first = or_at d.first (pos + i); last = some (pos + j) }))

Agree-cons : (x y : ℕ) (xs ys : List ℕ) → x ≡ y → Agree xs ys → Agree (x ∷ xs) (y ∷ ys)
Agree-cons x y xs ys e a zero h = e
Agree-cons x y xs ys e a (suc k) h = a k (omega arith)

-- Both differ further on.
Differ-cons :
    (x y : ℕ) (xs ys : List ℕ) (i j : ℕ)
    → x ≡ y
    → Differ xs ys i j
    → Differ (x ∷ xs) (y ∷ ys) (suc i) (suc j)
Differ-cons x y xs ys i j e d = record {
  order = omega (arith, d.order);
  inside = omega (arith, d.inside);
  at_first = d.at_first;
  at_last = d.at_last;
  before = before;
  behind = behind;
}
  where
    before : (k : ℕ) → k < suc i → SameAt (x ∷ xs) (y ∷ ys) k
    before zero h = e
    before (suc k) h = d.before k (omega arith)

    behind : (k : ℕ) → suc j < k → k < common (x ∷ xs) (y ∷ ys) → SameAt (x ∷ xs) (y ∷ ys) k
    behind zero h l = e
    behind (suc k) h l = d.behind k (omega arith) (omega arith)

-- They differ here, and nowhere else.
Differ-here : (x y : ℕ) (xs ys : List ℕ) → x ≢ y → Agree xs ys → Differ (x ∷ xs) (y ∷ ys) 0 0
Differ-here x y xs ys e a = record {
  order = omega arith;
  inside = omega arith;
  at_first = e;
  at_last = e;
  before = λ k h. absurd (omega arith);
  behind = behind;
}
  where
    behind : (k : ℕ) → 0 < k → k < common (x ∷ xs) (y ∷ ys) → SameAt (x ∷ xs) (y ∷ ys) k
    behind zero h l = absurd (omega arith)
    behind (suc k) h l = a k (omega arith)

Differ-first :
    (x y : ℕ) (xs ys : List ℕ) (i j : ℕ)
    → x ≢ y
    → Differ xs ys i j
    → Differ (x ∷ xs) (y ∷ ys) 0 (suc j)
Differ-first x y xs ys i j e d = record {
  order = omega arith;
  inside = omega (arith, d.inside);
  at_first = e;
  at_last = d.at_last;
  before = λ k h. absurd (omega arith);
  behind = behind;
}
  where
    behind : (k : ℕ) → suc j < k → k < common (x ∷ xs) (y ∷ ys) → SameAt (x ∷ xs) (y ∷ ys) k
    behind zero h l = absurd (omega arith)
    behind (suc k) h l = d.behind k (omega arith) (omega arith)

or_at-twice : (o : Option ℕ) (p q : ℕ) → or_at (or_at o p) q ≡ or_at o p
or_at-twice none p q = refl
or_at-twice (some f) p q = refl

locate_from_lem : (pos : ℕ) (xs ys : List ℕ) (d : Located) → Answer pos xs ys d
unfolding locate_from
locate_from_lem pos [] ys d = inl (λ k h. absurd (omega arith), refl)
locate_from_lem pos (x ∷ xs) [] d = inl (λ k h. absurd (omega arith), refl)
locate_from_lem pos (x ∷ xs) (y ∷ ys) d = elim (Bool-cases (x == y)) [
  | inl same ↦ rw same (elim (locate_from_lem (pos + 1) xs ys d) [
    | inl a ↦ inl (Agree-cons x y xs ys ((==_iff x y).0 same) a.0, a.1)
    | inr f ↦ inr (
      suc f.0,
      suc f.1,
      Differ-cons x y xs ys f.0 f.1 ((==_iff x y).0 same) f.2,
      f.3
          ∙ ap₂ (λ (u v : ℕ). record { first = or_at d.first u; last = some v }) (omega arith)
              (omega arith),
    )
  ])
  | inr other ↦
      let ne : x ≢ y = λ e. ground (arith, other, e) in
      let d' : Located = record { first = or_at d.first pos; last = some pos } in
      rw other (elim (locate_from_lem (pos + 1) xs ys d') [
        | inl a ↦ inr (
          0,
          0,
          Differ-here x y xs ys ne a.0,
          a.1
              ∙ ap₂ (λ (u v : ℕ). record { first = or_at d.first u; last = some v }) (omega arith)
                  (omega arith),
        )
        | inr f ↦ inr (
          0,
          suc f.1,
          Differ-first x y xs ys f.0 f.1 ne f.2,
          f.3
              ∙ ap₂ (λ (o : Option ℕ) (v : ℕ). record { first = o; last = some v })
                  (or_at-twice d.first pos (pos + 1 + f.0) ∙ ap (or_at d.first) (omega arith))
                  (omega arith),
        )
      ])
]

get_or-overwrite :
    (n : ℕ) (xs buf : List ℕ) (k : ℕ)
    → n ≤ common xs buf
    → get_or (overwrite (take n xs) buf) k 0 ≡ (if ltb k n then get_or xs k 0 else get_or buf k 0)
unfolding overwrite
get_or-overwrite zero xs buf k h = ground arith
get_or-overwrite (suc n) [] buf k h = absurd (omega arith)
get_or-overwrite (suc n) (x ∷ xs) [] k h = absurd (omega arith)
get_or-overwrite (suc n) (x ∷ xs) (y ∷ buf) zero h = ground arith
get_or-overwrite (suc n) (x ∷ xs) (y ∷ buf) (suc k) h =
    get_or-overwrite n xs buf k (omega arith) ∙ ground arith

same_everywhere :
    (xs ys : List ℕ) → length xs ≡ length ys → ((k : ℕ) → k < length ys → SameAt xs ys k) → xs ≡ ys
same_everywhere [] [] e h = refl
same_everywhere [] (y ∷ ys) e h = absurd (omega arith)
same_everywhere (x ∷ xs) [] e h = absurd (omega arith)
same_everywhere (x ∷ xs) (y ∷ ys) e h =
    ap₂ ◌∷◌ (h 0 (omega arith))
      (same_everywhere xs ys (omega arith) (λ k l. h (suc k) (omega arith)))

-- What is known of the splice of two files that differ first at `i` and last at `j`.
pub record IsSplice (in_buf new_buf : List ℕ) (i j split_at : ℕ) (b : List ℕ) : Type 0 where
  pub between : (i ≤ split_at) × (split_at < j)
  pub as_long : length b ≡ length new_buf
  pub bytes :
      (k : ℕ) → get_or b k 0 ≡ (if ltb k split_at then get_or in_buf k 0 else get_or new_buf k 0)
  pub changed : b ≢ in_buf
  pub other : (split_at ≡ i) ↔ (b ≡ new_buf)

spliced :
    (in_buf new_buf : List ℕ) (i j split_at : ℕ)
    → Differ in_buf new_buf i j
    → i ≤ split_at
    → split_at < j
    → IsSplice in_buf new_buf i j split_at (put 0 (bytes_at 0 split_at in_buf) new_buf)
unfolding put
spliced in_buf new_buf i j n d low high = record {
  between = (low, high);
  as_long = same_length;
  bytes = byte;
  changed =
      λ e. d.at_last (sym (ap (λ (t : List ℕ). get_or t j 0) e) ∙ byte j ∙ ground (arith, high));
  other = (
    λ e. same_everywhere b new_buf same_length λ k l. byte k ∙ ground (arith, e, d.before k),
    λ e. late e,
  );
}
  where
    b : List ℕ
    b = overwrite (take n in_buf) new_buf

    same_length : length b ≡ length new_buf
    same_length = length-put 0 (take n in_buf) new_buf

    byte : (k : ℕ) → get_or b k 0 ≡ (if ltb k n then get_or in_buf k 0 else get_or new_buf k 0)
    byte k = get_or-overwrite n in_buf new_buf k (omega (arith, d.inside, high))

    late : b ≡ new_buf → n ≡ i
    late e = elim (dec_lt i n) [
      | yes above ↦ absurd (
          d.at_first
            (sym (sym (ap (λ (t : List ℕ). get_or t i 0) e) ∙ byte i ∙ ground (arith, above))))
      | no here ↦ omega (arith, low, here)
    ]

too_close : (i j : ℕ) → ltb j 2 || i == j ≡ true → j < 2 ⊎ i ≡ j
too_close i j h = ground (arith, h)

-- Two files that agree as far as both go are not spliced. If they differ first at `i` and last at
-- `j`, they are not spliced when these are the same or `j` is below 2; else the splice has the
-- length of the target, it has the input's bytes up to an offset drawn from `i` to `j - 1` and the
-- target's from there on, it is not the input, and it is the target exactly if `i` is drawn.
pub splice_files_lem :
    (in_buf new_buf : List ℕ) (random : ℕ)
    → Agree in_buf new_buf × (splice_files in_buf new_buf random ≡ none)
      ⊎ ((i : ℕ) × (j : ℕ) × Differ in_buf new_buf i j
          × ((j < 2 ⊎ i ≡ j) × (splice_files in_buf new_buf random ≡ none)
              ⊎ ((b : List ℕ) × (splice_files in_buf new_buf random ≡ some b)
                  × (2 ≤ j)
                  × IsSplice in_buf new_buf i j (i + ur random (j - i)) b)))
unfolding splice_files splice_between locate_diffs
splice_files_lem in_buf new_buf random =
    let run = λ (d : Located). splice_between in_buf new_buf random d.first d.last in
    elim (locate_from_lem 0 in_buf new_buf (record { first = none; last = none })) [
      | inl a ↦ inl (a.0, ap run a.1)
      | inr f ↦
          let i = f.0 in
          let j = f.1 in
          let found : locate_from 0 in_buf new_buf (record { first = none; last = none })
              ≡ record { first = some i; last = some j } =
            f.3
            ∙ ap₂ (λ (u v : ℕ). record { first = some u; last = some v }) (omega arith)
                (omega arith) in
          inr (
            i,
            j,
            f.2,
            elim (Bool-cases (ltb j 2 || i == j)) [
              | inl short ↦ inl (too_close i j short, ap run found ∙ rw short)
              | inr far ↦
                  let room : i < j = ground (arith, far, f.2.order) in
                  inr (
                    put 0 (bytes_at 0 (i + ur random (j - i)) in_buf) new_buf,
                    ap run found ∙ rw far,
                    ground (arith, far),
                    spliced in_buf new_buf i j (i + ur random (j - i)) f.2 (omega arith)
                        (omega arith),
                  )
            ],
          )
    ]
