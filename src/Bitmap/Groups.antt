-- ===== src/Bitmap/Groups.antt =====
-- A loop that rewrites a map in place, one aligned 64-bit word after the other (the shape of
-- `classify_counts` and `simplify_trace` of fuzzer/afl-fuzz.c).
use nfuzzer.Base.{
  ℕ, zero, suc, ◌*◌, List, [], ◌∷◌, ◌++◌, map, take, drop, length, ◌≡◌, refl, ap, ◌∙◌, arith,
  length-take, length-drop, take-append-drop, sym,
}
use nfuzzer.Base.Bytes.{IsBytes, All-take, All-drop}
use mathlib.Core.List.{map-append}

-- `while (i--) { …; mem++; }` over `u64* mem`; `body` is what replaces the eight bytes of a word.
unfoldable pub each_group : (List ℕ → List ℕ) → ℕ → List ℕ → List ℕ
each_group body zero mem = mem
each_group body (suc i) mem = body (take 8 mem) ++ each_group body i (drop 8 mem)

-- A body that maps `f` over every word of bytes maps it over the whole array.
pub each_group-eq-map :
    (body : List ℕ → List ℕ) (f : ℕ → ℕ)
    → ((w : List ℕ) → length w ≡ 8 → IsBytes w → body w ≡ map f w)
    → (i : ℕ) (mem : List ℕ) → length mem ≡ 8 * i
    → IsBytes mem
    → each_group body i mem ≡ map f mem
unfolding each_group
each_group-eq-map body f step zero [] e h = refl
each_group-eq-map body f step zero (x ∷ mem) e h = absurd (omega arith)
each_group-eq-map body f step (suc i) mem e h =
    rw
      (
        step (take 8 mem) (omega (arith, length-take 8 mem)) (All-take _ 8 mem h),
        each_group-eq-map body f step i (drop 8 mem) (omega (arith, length-drop 8 mem))
            (All-drop _ 8 mem h),
      )
      (sym (map-append f (take 8 mem) (drop 8 mem)) ∙ ap (map f) (take-append-drop 8 mem))
