-- ===== src/Auto.antt =====
-- The automatic dictionary of fuzzer/afl-fuzz.c: maybe_add_auto(), memcmp_nocase() and the
-- comparisons of tokens. qsort() and tolower() of the C library are parameters. `auto_changed` is left
-- out: it only tells save_auto() to write the tokens.
use nfuzzer.Base.{
  ℕ, zero, suc, ◌+◌, ◌-◌, ◌/◌, ◌%◌, ◌^◌, ◌≤◌, ◌<◌, ◌≡◌, ◌↔◌, Bool, true, false, not, ltb, leb, ◌&&◌,
  ◌||◌, ◌==◌, if◌then◌else◌, List, [], ◌∷◌, ◌++◌, length, set, take, drop,
}
use nfuzzer.Base.Bytes.{All, load}
use nfuzzer.Havoc.Blocks.{ur}
use nfuzzer.Havoc.Dupes.{interesting_16, interesting_32, swap16, swap32}
use nfuzzer.Stages.Extras.{Extra, len_of, use_auto_extras}
use nfuzzer.Tree.{is_above}
pub mod Rearrange
pub mod Kept
mod Tests

-- MAX_AUTO_EXTRAS
abbrev pub max_auto_extras : ℕ
max_auto_extras = 500

-- compare_extras_len and compare_extras_use_d: 32-bit ints.
unfoldable pub compare_extras_len : Extra → Extra → ℕ
compare_extras_len e1 e2 = (len_of e1 + 2 ^ 32 - len_of e2) % 2 ^ 32

unfoldable pub compare_extras_use_d : Extra → Extra → ℕ
compare_extras_use_d e1 e2 = (e2.hit_cnt + 2 ^ 32 - e1.hit_cnt) % 2 ^ 32

-- The tokens in another order.
pub data Rearranged : List Extra → List Extra → Type 0 where
  same : {xs : List Extra} → Rearranged xs xs
  keep : {xs ys : List Extra} (e : Extra) → Rearranged xs ys → Rearranged (e ∷ xs) (e ∷ ys)
  swap : {xs : List Extra} (e f : Extra) → Rearranged (e ∷ f ∷ xs) (f ∷ e ∷ xs)
  follow : {xs ys zs : List Extra} → Rearranged xs ys → Rearranged ys zs → Rearranged xs zs

-- `low`, and the tokens' keys, are in ascending order.
abbrev pub Ascending : (Extra → ℕ) → ℕ → List Extra → Type 0
Ascending key low [] = Unit
Ascending key low (e ∷ es) = (low ≤ key e) × Ascending key (key e) es

-- The comparison is by a key, on tokens that satisfy P.
abbrev pub ComparesBy : (Extra → Type 0) → (Extra → ℕ) → (Extra → Extra → ℕ) → Type 0
ComparesBy P key compare =
    (e f : Extra) → P e → P f → (is_above (compare e f) 0 ≡ false) ↔ (key e ≤ key f)

-- The C library: qsort() rearranges an array, in ascending order if the comparison is by a key.
pub record Library : Type 1 where
  pub tolower : ℕ → ℕ
  pub qsort : (Extra → Extra → ℕ) → List Extra → List Extra
  pub rearranges :
      (compare : Extra → Extra → ℕ) (xs : List Extra) → Rearranged xs (qsort compare xs)
  pub sorts :
      (P : Extra → Type 0) (key : Extra → ℕ) (compare : Extra → Extra → ℕ) (xs : List Extra)
      → ComparesBy P key compare
      → All P xs
      → Ascending key 0 (qsort compare xs)

-- The bytes are all the same.
unfoldable pub all_are : ℕ → List ℕ → Bool
all_are b [] = true
all_are b (x ∷ xs) = x == b && all_are b xs

unfoldable pub is_run : List ℕ → Bool
is_run [] = false
is_run (x ∷ xs) = all_are x xs

-- A value of the table, or its swapped bytes. A u16 is compared as an int, a u32 as a u32.
unfoldable pub is_one_of : (ℕ → ℕ) → ℕ → List ℕ → Bool
is_one_of swapped w [] = false
is_one_of swapped w (v ∷ vs) = w == v || w == swapped v || is_one_of swapped w vs

unfoldable pub is_builtin : List ℕ → Bool
is_builtin mem =
    length mem == 2 && is_one_of swap16 (load mem) (interesting_16 32)
    || length mem == 4 && is_one_of swap32 (load mem) interesting_32

module _ (c : Library) where
  -- `len_of e == len && !memcmp_nocase(e.data, mem, len)`
  unfoldable pub same_nocase : List ℕ → List ℕ → Bool
  same_nocase [] [] = true
  same_nocase [] (y ∷ ys) = false
  same_nocase (x ∷ xs) [] = false
  same_nocase (x ∷ xs) (y ∷ ys) = c.tolower x == c.tolower y && same_nocase xs ys

  -- The tokens of the user from the first that is not shorter on, as long as they are as long.
  unfoldable pub matches_sorted : List ℕ → List Extra → Bool
  matches_sorted mem [] = false
  matches_sorted mem (e ∷ es) =
      len_of e == length mem && (same_nocase e.bytes mem || matches_sorted mem es)

  unfoldable pub matches_extra : List ℕ → List Extra → Bool
  matches_extra mem [] = false
  matches_extra mem (e ∷ es) =
      if leb (length mem) (len_of e) then matches_sorted mem (e ∷ es) else matches_extra mem es

  unfoldable pub is_known : List ℕ → List Extra → Bool
  is_known mem [] = false
  is_known mem (e ∷ es) = same_nocase e.bytes mem || is_known mem es

  -- `a_extras[i].hit_cnt++` at the first match
  unfoldable pub count_hit : List ℕ → List Extra → List Extra
  count_hit mem [] = []
  count_hit mem (e ∷ es) =
      if same_nocase e.bytes mem
      then record e { hit_cnt = (e.hit_cnt + 1) % 2 ^ 32 } ∷ es
      else e ∷ count_hit mem es

  -- A new token is appended if there is room; otherwise it takes the place of one in the second half.
  -- `random` is what random() returns.
  unfoldable pub add_new : ℕ → List ℕ → List Extra → List Extra
  add_new random mem a_extras =
      let new : Extra = record { bytes = mem; hit_cnt = 0 } in
      if ltb (length a_extras) max_auto_extras
      then a_extras ++ (new ∷ [])
      else set a_extras (max_auto_extras / 2 + ur random ((max_auto_extras + 1) / 2)) new

  -- sort_a_extras
  unfoldable pub sort_a_extras : List Extra → List Extra
  sort_a_extras a_extras =
      let by_use = c.qsort compare_extras_use_d a_extras in
      c.qsort compare_extras_len (take use_auto_extras by_use) ++ drop use_auto_extras by_use

  -- `a_extras` afterwards; MAX_AUTO_EXTRAS and USE_AUTO_EXTRAS are not 0.
  unfoldable pub maybe_add_auto : List Extra → ℕ → List ℕ → List Extra → List Extra
  maybe_add_auto extras random mem a_extras =
      if is_run mem || is_builtin mem || matches_extra mem extras
      then a_extras
      else sort_a_extras
          (if is_known mem a_extras then count_hit mem a_extras else add_new random mem a_extras)
