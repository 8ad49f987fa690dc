-- ===== src/Auto/Tests.antt =====
-- A C library for the automatic dictionary, and a dictionary that grows by a token.
use nfuzzer.Base.{
  ℕ, ◌≡◌, ◌≤◌, arith, true, false, Bool-cases, inl, inr, dec_lt, List, [], ◌∷◌, take,
}
use nfuzzer.Base.Bytes.{All}
use nfuzzer.Stages.Extras.{Extra, use_auto_extras}
use nfuzzer.Stages.Extras.Restore.{AreSortedFrom}
use nfuzzer.Tree.{is_above}
use nfuzzer.Auto.{
  Rearranged, same, keep, swap, follow, Ascending, ComparesBy, Library, maybe_add_auto,
}
use nfuzzer.Auto.Kept.{IsDictionary, maybe_add_auto-IsDictionary}

unfoldable insert : (Extra → Extra → ℕ) → Extra → List Extra → List Extra
insert compare e [] = e ∷ []
insert compare e (f ∷ fs) = elim (is_above (compare e f) 0) [
  | true ↦ f ∷ insert compare e fs
  | false ↦ e ∷ f ∷ fs
]

unfoldable insertion_sort : (Extra → Extra → ℕ) → List Extra → List Extra
insertion_sort compare [] = []
insertion_sort compare (e ∷ es) = insert compare e (insertion_sort compare es)

insert-Rearranged :
    (compare : Extra → Extra → ℕ) (e : Extra) (xs : List Extra)
    → Rearranged (e ∷ xs) (insert compare e xs)
unfolding insert
insert-Rearranged compare e [] = same
insert-Rearranged compare e (f ∷ fs) = elim (Bool-cases (is_above (compare e f) 0)) [
  | inl above ↦ rw (above, insert) (follow (swap e f) (keep f (insert-Rearranged compare e fs)))
  | inr below ↦ rw (below, insert) same
]

insertion_sort-Rearranged :
    (compare : Extra → Extra → ℕ) (xs : List Extra) → Rearranged xs (insertion_sort compare xs)
unfolding insertion_sort
insertion_sort-Rearranged compare [] = same
insertion_sort-Rearranged compare (e ∷ es) =
    follow (keep e (insertion_sort-Rearranged compare es)) (insert-Rearranged compare e _)

module _ (P : Extra → Type 0) (key : Extra → ℕ) (compare : Extra → Extra → ℕ)
    (by_key : ComparesBy P key compare) where
  above-key : (e f : Extra) → P e → P f → is_above (compare e f) 0 ≡ true → key f ≤ key e
  above-key e f p q above = elim (dec_lt (key e) (key f)) [
    | yes less ↦
        let below : is_above (compare e f) 0 ≡ false = (by_key e f p q).1 (omega arith) in
        absurd (ground (arith, above, below))
    | no more ↦ omega (arith, more)
  ]

  insert-Ascending :
      (low : ℕ) (e : Extra) (xs : List Extra)
      → low ≤ key e
      → P e
      → All P xs
      → Ascending key low xs
      → Ascending key low (insert compare e xs) × All P (insert compare e xs)
  unfolding insert
  insert-Ascending low e [] h p ps asc = ((h, tt), (p, tt))
  insert-Ascending low e (f ∷ fs) h p ps asc = elim (Bool-cases (is_above (compare e f) 0)) [
    | inl above ↦
        let rest = insert-Ascending (key f) e fs (above-key e f p ps.0 above) p ps.1 asc.1 in
        rw (above, insert) ((asc.0, rest.0), (ps.0, rest.1))
    | inr below ↦ rw (below, insert) ((h, ((by_key e f p ps.0).0 below, asc.1)), (p, ps))
  ]

  insertion_sort-Ascending :
      (xs : List Extra)
      → All P xs
      → Ascending key 0 (insertion_sort compare xs) × All P (insertion_sort compare xs)
  unfolding insertion_sort
  insertion_sort-Ascending [] ps = (tt, tt)
  insertion_sort-Ascending (e ∷ es) ps =
      let rest = insertion_sort-Ascending es ps.1 in
      insert-Ascending 0 e _ (omega arith) ps.0 rest.1 rest.0

abbrev plain_library : Library
plain_library = record {
  tolower = λ b. b;
  qsort = insertion_sort;
  rearranges = insertion_sort-Rearranged;
  sorts = λ P key compare xs by_key ps. (insertion_sort-Ascending P key compare by_key xs ps).0;
}

abbrev token : List ℕ
token = 70 ∷ 85 ∷ 90 ∷ []

abbrev one_token : List Extra
one_token = record { bytes = 71 ∷ 73 ∷ 70 ∷ 56 ∷ []; hit_cnt = 3 } ∷ []

one_token-IsDictionary : IsDictionary plain_library one_token
one_token-IsDictionary = record {
  few = omega arith;
  short = (omega arith, tt);
  distinct = (tt, tt);
}

maybe_add_auto-IsDictionary_example :
    IsDictionary plain_library (maybe_add_auto plain_library [] 7 token one_token)
    × AreSortedFrom 0 (take use_auto_extras (maybe_add_auto plain_library [] 7 token one_token))
maybe_add_auto-IsDictionary_example =
    maybe_add_auto-IsDictionary plain_library [] 7 token one_token (omega arith)
      one_token-IsDictionary (omega arith, tt)
