-- ===== src/Auto/Kept.antt =====
-- maybe_add_auto() keeps the automatic tokens few, different from each other, and the first of them
-- in order of length.
use nfuzzer.Base.{
  ℕ, zero, suc, ◌+◌, ◌%◌, ◌^◌, ◌≤◌, ◌<◌, ◌≡◌, refl, ap, ◌∙◌, arith, false, ltb, ◌||◌, List, [], ◌∷◌,
  ◌++◌, length, set, take, drop, Bool-cases, inl, inr, length-append, length-set, take-append-drop,
}
use nfuzzer.Base.Bytes.{All, All-append, All-take}
use nfuzzer.Stages.Extras.{Extra, len_of, use_auto_extras}
use nfuzzer.Stages.Extras.Restore.{AreSortedFrom}
use nfuzzer.Tree.{is_above}
use nfuzzer.Auto.{
  max_auto_extras, compare_extras_len, compare_extras_use_d, Rearranged, same, keep, swap, follow,
  Ascending, ComparesBy, Library, same_nocase, is_known, count_hit, add_new, sort_a_extras,
  maybe_add_auto, is_run, is_builtin, matches_extra,
}
use nfuzzer.Auto.Rearrange.{length-Rearranged, All-Rearranged, Distinct, Distinct-Rearranged}

-- A token that a 32-bit int can measure.
abbrev pub IsShort : Extra → Type 0
IsShort e = len_of e < 2 ^ 31

compare_extras_len-ComparesBy : ComparesBy IsShort len_of compare_extras_len
unfolding compare_extras_len is_above
compare_extras_len-ComparesBy e f p q = ground arith

add_behind :
    {xs ys : List Extra} (zs : List Extra) → Rearranged xs ys → Rearranged (xs ++ zs) (ys ++ zs)
add_behind zs same = same
add_behind zs (keep e r) = keep e (add_behind zs r)
add_behind zs (swap e f) = swap e f
add_behind zs (follow r s) = follow (add_behind zs r) (add_behind zs s)

-- A prefix that is put back in another order.
take-top :
    (n : ℕ) (xs top : List Extra)
    → length top ≡ length (take n xs)
    → take n (top ++ drop n xs) ≡ top
take-top zero xs [] h = refl
take-top zero xs (t ∷ top) h = absurd (omega arith)
take-top (suc n) [] [] h = refl
take-top (suc n) [] (t ∷ top) h = absurd (omega arith)
take-top (suc n) (x ∷ xs) [] h = absurd (omega arith)
take-top (suc n) (x ∷ xs) (t ∷ top) h = ap (λ u. t ∷ u) (take-top n xs top (omega arith))

Ascending-AreSortedFrom :
    (low : ℕ) (xs : List Extra) → Ascending len_of low xs → AreSortedFrom low xs
Ascending-AreSortedFrom low [] h = tt
Ascending-AreSortedFrom low (e ∷ es) h = (h.0, Ascending-AreSortedFrom (len_of e) es h.1)

module _ (c : Library) where
  -- Not the same up to case.
  abbrev Differs : Extra → Extra → Type 0
  Differs e f = same_nocase c e.bytes f.bytes ≡ false

  same_nocase_comm : (xs ys : List ℕ) → same_nocase c xs ys ≡ same_nocase c ys xs
  unfolding same_nocase
  same_nocase_comm [] [] = refl
  same_nocase_comm [] (y ∷ ys) = refl
  same_nocase_comm (x ∷ xs) [] = refl
  same_nocase_comm (x ∷ xs) (y ∷ ys) = ground (arith, same_nocase_comm xs ys)

  Differs-back : (e f : Extra) → Differs e f → Differs f e
  Differs-back e f h = same_nocase_comm f.bytes e.bytes ∙ h

  -- What the array is like at all times.
  pub record IsDictionary (a_extras : List Extra) : Type 0 where
    pub few : length a_extras ≤ max_auto_extras
    pub short : All IsShort a_extras
    pub distinct : Distinct Differs a_extras

  Rearranged-IsDictionary :
      {xs ys : List Extra} → Rearranged xs ys → IsDictionary xs → IsDictionary ys
  Rearranged-IsDictionary r d = record {
    few = omega (arith, length-Rearranged r, d.few);
    short = All-Rearranged IsShort r d.short;
    distinct = Distinct-Rearranged Differs Differs-back r d.distinct;
  }

  sort_a_extras-Rearranged : (xs : List Extra) → Rearranged xs (sort_a_extras c xs)
  unfolding sort_a_extras
  sort_a_extras-Rearranged xs =
      let by_use = c.qsort compare_extras_use_d xs in
      let split : Rearranged (take use_auto_extras by_use ++ drop use_auto_extras by_use) (
          c.qsort compare_extras_len (take use_auto_extras by_use) ++ drop use_auto_extras by_use) =
        add_behind _ (c.rearranges compare_extras_len (take use_auto_extras by_use)) in
      follow (c.rearranges compare_extras_use_d xs)
        (rw (take-append-drop use_auto_extras by_use) at split)

  -- The first USE_AUTO_EXTRAS tokens are in order of length.
  sort_a_extras-AreSortedFrom :
      (xs : List Extra)
      → All IsShort xs
      → AreSortedFrom 0 (take use_auto_extras (sort_a_extras c xs))
  unfolding sort_a_extras
  sort_a_extras-AreSortedFrom xs short =
      let by_use = c.qsort compare_extras_use_d xs in
      let top = c.qsort compare_extras_len (take use_auto_extras by_use) in
      let short' =
        All-take IsShort use_auto_extras by_use
          (All-Rearranged IsShort (c.rearranges compare_extras_use_d xs) short) in
      let sorted =
        Ascending-AreSortedFrom 0 top
          (c.sorts IsShort len_of compare_extras_len _ compare_extras_len-ComparesBy short') in
      rw
        (take-top use_auto_extras by_use top
          (length-Rearranged (c.rearranges compare_extras_len (take use_auto_extras by_use))))
        sorted

  All-count_hit :
      (e : Extra) (mem : List ℕ) (xs : List Extra)
      → All (Differs e) xs
      → All (Differs e) (count_hit c mem xs)
  unfolding count_hit
  All-count_hit e mem [] h = tt
  All-count_hit e mem (x ∷ xs) h = elim (Bool-cases (same_nocase c x.bytes mem)) [
    | inl hit ↦ rw hit (h.0, h.1)
    | inr miss ↦ rw miss (h.0, All-count_hit e mem xs h.1)
  ]

  Distinct-count_hit :
      (mem : List ℕ) (xs : List Extra) → Distinct Differs xs → Distinct Differs (count_hit c mem xs)
  unfolding count_hit
  Distinct-count_hit mem [] h = tt
  Distinct-count_hit mem (x ∷ xs) h = elim (Bool-cases (same_nocase c x.bytes mem)) [
    | inl hit ↦ rw hit (h.0, h.1)
    | inr miss ↦ rw miss (All-count_hit x mem xs h.0, Distinct-count_hit mem xs h.1)
  ]

  count_hit-IsShort :
      (mem : List ℕ) (xs : List Extra)
      → All IsShort xs
      → All IsShort (count_hit c mem xs) × (length (count_hit c mem xs) ≡ length xs)
  unfolding count_hit
  count_hit-IsShort mem [] h = (tt, refl)
  count_hit-IsShort mem (x ∷ xs) h = elim (Bool-cases (same_nocase c x.bytes mem)) [
    | inl hit ↦ rw hit ((h.0, h.1), refl)
    | inr miss ↦ let r = count_hit-IsShort mem xs h.1 in rw miss ((h.0, r.0), ap suc r.1)
  ]

  unknown :
      (mem : List ℕ) (xs : List Extra)
      → is_known c mem xs ≡ false
      → All (λ e. same_nocase c e.bytes mem ≡ false) xs
  unfolding is_known
  unknown mem [] h = tt
  unknown mem (x ∷ xs) h = (ground (arith, h), unknown mem xs (ground (arith, h)))

  module _ (new : Extra) where
    Distinct-append :
        (xs : List Extra)
        → All (λ e. Differs e new) xs
        → Distinct Differs xs
        → Distinct Differs (xs ++ (new ∷ []))
    Distinct-append [] a d = (tt, tt)
    Distinct-append (x ∷ xs) a d =
        (All-append (Differs x) xs (new ∷ []) d.0 (a.0, tt), Distinct-append xs a.1 d.1)

    All-set :
        (P : Extra → Type 0) (xs : List Extra) (i : ℕ) → P new → All P xs → All P (set xs i new)
    All-set P [] i p h = tt
    All-set P (x ∷ xs) zero p h = (p, h.1)
    All-set P (x ∷ xs) (suc i) p h = (h.0, All-set P xs i p h.1)

    turned : (xs : List Extra) → All (λ e. Differs e new) xs → All (Differs new) xs
    turned [] a = tt
    turned (x ∷ xs) a = (Differs-back x new a.0, turned xs a.1)

    Distinct-set :
        (xs : List Extra) (i : ℕ)
        → All (λ e. Differs e new) xs
        → Distinct Differs xs
        → Distinct Differs (set xs i new)
    Distinct-set [] i a d = tt
    Distinct-set (x ∷ xs) zero a d = (turned xs a.1, d.1)
    Distinct-set (x ∷ xs) (suc i) a d =
        (All-set (Differs x) xs i a.0 d.0, Distinct-set xs i a.1 d.1)

  add_new-IsDictionary :
      (random : ℕ) (mem : List ℕ) (xs : List Extra)
      → length mem < 2 ^ 31
      → is_known c mem xs ≡ false
      → IsDictionary xs
      → IsDictionary (add_new c random mem xs)
  unfolding add_new
  add_new-IsDictionary random mem xs small new_one d =
      let new : Extra = record { bytes = mem; hit_cnt = 0 } in
      let at = 250 + random % 250 in
      elim (Bool-cases (ltb (length xs) max_auto_extras)) [
        | inl room ↦ rw room (record {
          few = ground (arith, room, length-append xs (new ∷ []));
          short = All-append IsShort xs (new ∷ []) d.short (small, tt);
          distinct = Distinct-append new xs (unknown mem xs new_one) d.distinct;
        })
        | inr full ↦ rw full (record {
          few = omega (arith, length-set xs at new, d.few);
          short = All-set new IsShort xs at small d.short;
          distinct = Distinct-set new xs at (unknown mem xs new_one) d.distinct;
        })
      ]

  -- A token shorter than 2 ^ 31 bytes that is met, if qsort() sorts: a dictionary of at most
  -- MAX_AUTO_EXTRAS such tokens, no two of them the same up to case, whose first USE_AUTO_EXTRAS
  -- tokens are in order of length, is one of that kind afterwards.
  pub maybe_add_auto-IsDictionary :
      (extras : List Extra) (random : ℕ) (mem : List ℕ) (a_extras : List Extra)
      → length mem < 2 ^ 31
      → IsDictionary a_extras
      → AreSortedFrom 0 (take use_auto_extras a_extras)
      → IsDictionary (maybe_add_auto c extras random mem a_extras)
        × AreSortedFrom 0 (take use_auto_extras (maybe_add_auto c extras random mem a_extras))
  unfolding maybe_add_auto
  maybe_add_auto-IsDictionary extras random mem a_extras small d sorted =
      elim (Bool-cases (is_run mem || is_builtin mem || matches_extra c mem extras)) [
        | inl refused ↦ rw refused (d, sorted)
        | inr taken ↦ rw taken (elim (Bool-cases (is_known c mem a_extras)) [
          | inl old ↦ rw old (finish (count_hit c mem a_extras) (hit d))
          | inr new ↦ rw new (
              finish (add_new c random mem a_extras)
                (add_new-IsDictionary random mem a_extras small new d))
        ])
      ]
    where
      hit : IsDictionary a_extras → IsDictionary (count_hit c mem a_extras)
      hit d =
          let r = count_hit-IsShort mem a_extras d.short in
          record {
            few = omega (arith, r.1, d.few);
            short = r.0;
            distinct = Distinct-count_hit mem a_extras d.distinct;
          }

      finish :
          (xs : List Extra)
          → IsDictionary xs
          → IsDictionary (sort_a_extras c xs)
            × AreSortedFrom 0 (take use_auto_extras (sort_a_extras c xs))
      finish xs e = (
        Rearranged-IsDictionary (sort_a_extras-Rearranged xs) e,
        sort_a_extras-AreSortedFrom xs e.short,
      )
