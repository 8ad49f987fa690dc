-- ===== src/Stages/Words.antt =====
-- Reads and writes of n bytes at an offset of a buffer, as the C code makes them through casts of
-- the pointer. A write past the end changes nothing there.
use nfuzzer.Base.{
  ℕ, zero, suc, ◌+◌, ◌≤◌, ◌≡◌, refl, sym, ap, ◌∙◌, arith, List, [], ◌∷◌, length, take, drop,
  length-take, length-drop,
}
use nfuzzer.Base.Bytes.{IsBytes, load, store, store-load, All-take, All-drop}

unfoldable pub overwrite : List ℕ → List ℕ → List ℕ
overwrite [] buf = buf
overwrite (v ∷ w) [] = []
overwrite (v ∷ w) (x ∷ buf) = v ∷ overwrite w buf

unfoldable pub put : ℕ → List ℕ → List ℕ → List ℕ
put zero w buf = overwrite w buf
put (suc i) w [] = []
put (suc i) w (x ∷ buf) = x ∷ put i w buf

abbrev pub bytes_at : ℕ → ℕ → List ℕ → List ℕ
bytes_at i n buf = take n (drop i buf)

length-overwrite : (w buf : List ℕ) → length (overwrite w buf) ≡ length buf
unfolding overwrite
length-overwrite [] buf = refl
length-overwrite (v ∷ w) [] = refl
length-overwrite (v ∷ w) (x ∷ buf) = ap suc (length-overwrite w buf)

pub length-put : (i : ℕ) (w buf : List ℕ) → length (put i w buf) ≡ length buf
unfolding put
length-put zero w buf = length-overwrite w buf
length-put (suc i) w [] = refl
length-put (suc i) w (x ∷ buf) = ap suc (length-put i w buf)

overwrite-overwrite :
    (w v buf : List ℕ) → length v ≤ length w → overwrite w (overwrite v buf) ≡ overwrite w buf
unfolding overwrite
overwrite-overwrite w [] buf h = refl
overwrite-overwrite [] (y ∷ v) buf h = absurd (omega arith)
overwrite-overwrite (x ∷ w) (y ∷ v) [] h = refl
overwrite-overwrite (x ∷ w) (y ∷ v) (b ∷ buf) h =
    ap (λ t. x ∷ t) (overwrite-overwrite w v buf (omega arith))

-- A write hides an earlier one that is not longer.
pub put-put : (i : ℕ) (w v buf : List ℕ) → length v ≤ length w → put i w (put i v buf) ≡ put i w buf
unfolding put
put-put zero w v buf h = overwrite-overwrite w v buf h
put-put (suc i) w v [] h = refl
put-put (suc i) w v (x ∷ buf) h = ap (λ t. x ∷ t) (put-put i w v buf h)

overwrite-take : (n : ℕ) (buf : List ℕ) → overwrite (take n buf) buf ≡ buf
unfolding overwrite
overwrite-take zero buf = refl
overwrite-take (suc n) [] = refl
overwrite-take (suc n) (x ∷ buf) = ap (λ t. x ∷ t) (overwrite-take n buf)

-- Writing what is there changes nothing.
pub put-bytes_at : (i n : ℕ) (buf : List ℕ) → put i (bytes_at i n buf) buf ≡ buf
unfolding put
put-bytes_at zero n buf = overwrite-take n buf
put-bytes_at (suc i) zero [] = refl
put-bytes_at (suc i) (suc n) [] = refl
put-bytes_at (suc i) n (x ∷ buf) = ap (λ t. x ∷ t) (put-bytes_at i n buf)

pub length-bytes_at : (i n : ℕ) (buf : List ℕ) → i + n ≤ length buf → length (bytes_at i n buf) ≡ n
length-bytes_at i n buf h = omega (arith, length-take n (drop i buf), length-drop i buf)

pub bytes_at-IsBytes : (i n : ℕ) (buf : List ℕ) → IsBytes buf → IsBytes (bytes_at i n buf)
bytes_at-IsBytes i n buf h = All-take _ n (drop i buf) (All-drop _ i buf h)

-- `*(uN*)(buf + i) = *(uN*)(buf + i)`
pub store-bytes_at :
    (i n : ℕ) (buf : List ℕ)
    → i + n ≤ length buf
    → IsBytes buf
    → store n (load (bytes_at i n buf)) ≡ bytes_at i n buf
store-bytes_at i n buf h b =
    ap (λ (k : ℕ). store k (load (bytes_at i n buf))) (sym (length-bytes_at i n buf h))
    ∙ store-load (bytes_at i n buf) (bytes_at-IsBytes i n buf b)

bytes_at-overwrite :
    (w buf : List ℕ) → length w ≤ length buf → take (length w) (overwrite w buf) ≡ w
unfolding overwrite
bytes_at-overwrite [] buf h = refl
bytes_at-overwrite (v ∷ w) [] h = absurd (omega arith)
bytes_at-overwrite (v ∷ w) (x ∷ buf) h = ap (λ t. v ∷ t) (bytes_at-overwrite w buf (omega arith))

-- What was written is what is read.
pub bytes_at-put :
    (i : ℕ) (w buf : List ℕ) → i + length w ≤ length buf → bytes_at i (length w) (put i w buf) ≡ w
unfolding put
bytes_at-put zero w buf h = bytes_at-overwrite w buf (omega arith)
bytes_at-put (suc i) [] [] h = refl
bytes_at-put (suc i) (v ∷ w) [] h = absurd (omega arith)
bytes_at-put (suc i) w (x ∷ buf) h = bytes_at-put i w buf (omega arith)
