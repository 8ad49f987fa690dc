-- ===== src/Mutate/Splice.antt =====
-- locate_diffs() and the splicing of two files in fuzz_one() of fuzzer/afl-fuzz.c. An offset of -1 is
-- `none`.
use nfuzzer.Base.{
  ℕ, zero, suc, ◌+◌, ◌-◌, ◌%◌, ◌≤◌, ◌<◌, ◌≡◌, ◌≢◌, ◌⊎◌, inl, inr, ◌↔◌, refl, ap, sym, ◌∙◌, arith,
  Bool, true, false, ltb, ◌||◌, ◌==◌, if◌then◌else◌, Option, none, some, List, [], ◌∷◌, length,
  get_or, take, min, length-take,
}
use nfuzzer.Havoc.Blocks.{ur}
use nfuzzer.Stages.Words.{put, bytes_at, overwrite, length-put}
pub mod Diffs

-- `*first` and `*last`
pub record Located : Type 0 where
  pub first : Option ℕ
  pub last : Option ℕ

abbrev pub or_at : Option ℕ → ℕ → Option ℕ
or_at none pos = some pos
or_at (some f) pos = some f

-- The loop from `pos` on, over the bytes that are left of both.
unfoldable pub locate_from : ℕ → List ℕ → List ℕ → Located → Located
locate_from pos [] ys d = d
locate_from pos (x ∷ xs) [] d = d
locate_from pos (x ∷ xs) (y ∷ ys) d =
    locate_from (pos + 1) xs ys
      (if x == y then d else record { first = or_at d.first pos; last = some pos })

-- locate_diffs on as many bytes as both have.
unfoldable pub locate_diffs : List ℕ → List ℕ → Located
locate_diffs ptr1 ptr2 = locate_from 0 ptr1 ptr2 (record { first = none; last = none })

-- `f_diff < 0 || l_diff < 2 || f_diff == l_diff` gives up; otherwise the first `split_at` bytes of
-- the target are overwritten. `random` is what random() returns.
unfoldable pub splice_between : List ℕ → List ℕ → ℕ → Option ℕ → Option ℕ → Option (List ℕ)
splice_between in_buf new_buf random none l_diff = none
splice_between in_buf new_buf random (some f) none = none
splice_between in_buf new_buf random (some f) (some l) =
    if ltb l 2 || f == l
    then none
    else some (put 0 (bytes_at 0 (f + ur random (l - f)) in_buf) new_buf)

unfoldable pub splice_files : List ℕ → List ℕ → ℕ → Option (List ℕ)
splice_files in_buf new_buf random =
    let d = locate_diffs in_buf new_buf in splice_between in_buf new_buf random d.first d.last
