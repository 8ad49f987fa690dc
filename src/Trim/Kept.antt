-- ===== src/Trim/Kept.antt =====
-- What trim_case of fuzzer/afl-fuzz.c keeps of an input, and that it ends.
use native.Mathlib.Nat.{pow-suc}
use nfuzzer.Base.{
  ℕ, zero, suc, ◌+◌, ◌-◌, ◌/◌, ◌^◌, ◌≤◌, ◌<◌, min, max, ◌≡◌, ◌≢◌, refl, arith, ap, Bool, true,
  false, ◌||◌, ltb, leb, ◌==◌, Option, none, some, ◌>>=◌, ◌⊎◌, inl, inr, List, length, take, drop,
  length-append, length-take, length-drop, ltb→lt, sym, subst, ◌∙◌, [], ◌∷◌, ◌++◌,
}
use nfuzzer.Stages.Words.{overwrite, put, bytes_at}
use nfuzzer.Havoc.Blocks.{next_p2, next_p2_lem}
use nfuzzer.Trim.{
  Target, Trimming, fault_error, trim_min_bytes, trim_end_steps, write_with_gap, move_tail,
  trim_pass, trim_steps, trim_case,
}

-- A value comes out and has the property.
abbrev pub Yields : {A : Type 0} → (A → Type 0) → Option A → Type 0
Yields P none = true ≡ false
Yields P (some a) = P a

of_some : {A : Type 0} (P : A → Type 0) (o : Option A) (a : A) → o ≡ some a → P a → Yields P o
of_some P o a e p = rw e p

to_some : {A : Type 0} (P : A → Type 0) (o : Option A) → Yields P o → (a : A) × (o ≡ some a) × P a
to_some P none h = absurd (ground (arith, h))
to_some P (some a) h = (a, refl, h)

branch-Yields :
    {A : Type 0} (P : A → Type 0) (b : Bool) (x y : Option A)
    → (b ≡ true → Yields P x)
    → (b ≡ false → Yields P y)
    → Yields P (elim b [ true ↦ x | false ↦ y ])
branch-Yields P true x y p q = p refl
branch-Yields P false x y p q = q refl

bind-Yields :
    {A B : Type 0} (P : A → Type 0) (Q : B → Type 0) (o : Option A) (f : A → Option B)
    → Yields P o
    → ((a : A) → P a → Yields Q (f a))
    → Yields Q (o >>= f)
bind-Yields P Q none f h k = absurd (ground (arith, h))
bind-Yields P Q (some a) f h k = k a h

steps_left : (fuel x : ℕ) → 4 ≤ x → x < 2 ^ suc fuel → 0 < fuel
steps_left zero x p h = absurd (omega arith)
steps_left (suc fuel) x p h = omega arith

length-write_with_gap :
    (mem : List ℕ) (pos n : ℕ)
    → pos + n ≤ length mem
    → length (write_with_gap mem pos n) ≡ length mem - n
unfolding write_with_gap
length-write_with_gap mem pos n h = omega (
  arith,
  length-append (take pos mem) (drop (pos + n) mem),
  length-take pos mem,
  length-drop (pos + n) mem,
)

take-overwrite : (w buf : List ℕ) → length w ≤ length buf → take (length w) (overwrite w buf) ≡ w
unfolding overwrite
take-overwrite [] buf h = refl
take-overwrite (v ∷ w) [] h = absurd (omega arith)
take-overwrite (v ∷ w) (x ∷ buf) h = ap (λ t. v ∷ t) (take-overwrite w buf (omega arith))

take-put :
    (i k : ℕ) (w buf : List ℕ)
    → k ≡ i + length w
    → k ≤ length buf
    → take k (put i w buf) ≡ take i buf ++ w
unfolding put
take-put zero k w buf e h =
    let same : k ≡ length w = omega (arith, e) in
    ap (λ (n : ℕ). take n (overwrite w buf)) same ∙ take-overwrite w buf (omega (arith, same))
take-put (suc i) zero w buf e h = absurd (omega (arith, e))
take-put (suc i) (suc k) w [] e h = absurd (omega arith)
take-put (suc i) (suc k) w (x ∷ buf) e h =
    ap (λ t. x ∷ t) (take-put i k w buf (omega (arith, e)) (omega arith))

take-whole : (n : ℕ) (xs : List ℕ) → length xs ≡ n → take n xs ≡ xs
take-whole zero [] h = refl
take-whole zero (x ∷ xs) h = absurd (omega (arith, h))
take-whole (suc n) [] h = refl
take-whole (suc n) (x ∷ xs) h = ap (λ t. x ∷ t) (take-whole n xs (omega (arith, h)))

-- The bytes that were given to the target are the ones that are kept.
move_tail-write_with_gap :
    (b : List ℕ) (pos n : ℕ) → pos + n ≤ length b → move_tail b pos n ≡ write_with_gap b pos n
unfolding move_tail write_with_gap
move_tail-write_with_gap b pos n h =
    let tail = length b - pos - n in
    let w = drop (pos + n) b in
    let size : length w ≡ tail = omega (arith, length-drop (pos + n) b) in
    let whole : bytes_at (pos + n) tail b ≡ w = take-whole tail w size in
    ap (λ (t : List ℕ). take (length b - n) (put pos t b)) whole
    ∙ take-put pos (length b - n) w b (omega (arith, size)) (omega arith)

module _ (target : Target) (hash32 : List ℕ → ℕ) (exec_cksum : ℕ) (original : List ℕ) where
  -- The buffer is the original one, or some run on it had the checksum and did not fail.
  abbrev pub IsKept : List ℕ → Type 0
  IsKept buf =
      (length buf ≤ length original)
      × (buf ≡ original
          ⊎ (n : ℕ) × (hash32 (target n buf).trace_bits ≡ exec_cksum)
            × ((target n buf).stop_soon ≡ false)
            × ((target n buf).fault ≢ fault_error))

  abbrev KeptIn : Trimming → Type 0
  KeptIn t = IsKept t.in_buf

  trim_pass_lem :
      (fuel remove_len remove_pos : ℕ) (t : Trimming)
      → 0 < remove_len
      → length t.in_buf - remove_pos < fuel
      → KeptIn t
      → Yields KeptIn (trim_pass target hash32 exec_cksum fuel remove_len remove_pos t)
  unfolding trim_pass
  trim_pass_lem zero remove_len remove_pos t p h k = absurd (omega arith)
  trim_pass_lem (suc fuel) remove_len remove_pos t p h k =
      let trim_avail = min remove_len (length t.in_buf - remove_pos) in
      let gapped = write_with_gap t.in_buf remove_pos trim_avail in
      let r = target t.trim_execs gapped in
      let cut : ltb remove_pos (length t.in_buf) ≡ true
          → (length gapped ≡ length t.in_buf - trim_avail) × (remove_pos < length t.in_buf) =
        λ more. (
          length-write_with_gap t.in_buf remove_pos trim_avail (omega (arith, ltb→lt _ _ more)),
          ltb→lt _ _ more,
        ) in
      let moved : ltb remove_pos (length t.in_buf) ≡ true
          → move_tail t.in_buf remove_pos trim_avail ≡ gapped =
        λ more.
          move_tail-write_with_gap t.in_buf remove_pos trim_avail
            (omega (arith, ltb→lt _ _ more)) in
      let kept : move_tail t.in_buf remove_pos trim_avail ≡ gapped
          → IsKept gapped
          → IsKept (move_tail t.in_buf remove_pos trim_avail) =
        λ e v. subst IsKept (sym e) v in
      branch-Yields KeptIn (ltb remove_pos (length t.in_buf)) _ _
        (λ more.
          branch-Yields KeptIn (r.stop_soon || r.fault == fault_error) _ _ (λ bad. k)
            (λ good.
              branch-Yields KeptIn (hash32 r.trace_bits == exec_cksum) _ _
                (λ same.
                  trim_pass_lem fuel remove_len remove_pos _ p
                    (omega (arith, h, cut more, ap length (moved more)))
                    (kept (moved more) (
                      omega (arith, k.0, cut more),
                      inr (t.trim_execs, ground arith, ground arith, ground arith),
                    )))
                (λ differs.
                  trim_pass_lem fuel remove_len (remove_pos + remove_len) _ p (ground (arith, more))
                    k)))
        (λ end. k)

  trim_steps_lem :
      (fuel remove_len : ℕ) (t : Trimming)
      → 0 < fuel
      → remove_len < 2 ^ fuel
      → length original ≤ 2 ^ 31
      → KeptIn t
      → Yields KeptIn (trim_steps target hash32 exec_cksum fuel remove_len t)
  unfolding trim_steps
  trim_steps_lem zero remove_len t f h small k = absurd (omega arith)
  trim_steps_lem (suc fuel) remove_len t f h small k =
      let size = next_p2_lem (length t.in_buf) (omega (arith, k.0)) in
      bind-Yields (λ (n : ℕ). Unit {0}) KeptIn (next_p2 (length t.in_buf)) _
        (of_some _ _ (2 ^ size.0) size.1 tt)
        (λ len_p2 u.
          branch-Yields KeptIn (leb (max (len_p2 / trim_end_steps) trim_min_bytes) remove_len) _ _
            (λ large.
              bind-Yields KeptIn KeptIn _ _
                (trim_pass_lem (length t.in_buf + 1) remove_len remove_len t (ground (arith, large))
                  (omega arith) k)
                (λ done kept.
                  branch-Yields KeptIn done.aborted _ _ (λ e. kept)
                    (λ e.
                      trim_steps_lem fuel (remove_len / 2) done
                        (steps_left fuel remove_len (ground (arith, large)) h)
                        (omega (arith, pow-suc 2 fuel)) small kept)))
            (λ end. k))

-- For an input of at most 2 ^ 31 bytes trim_case ends. What it leaves is at most as long as the
-- input, and it is the input itself or some run of the target on exactly those bytes had the
-- checksum of the entry, did not report an error and was not stopped; this holds for every target,
-- also for one that answers differently from run to run.
pub trim_case_lem :
    (target : Target) (hash32 : List ℕ → ℕ) (exec_cksum : ℕ) (in_buf : List ℕ) (trim_execs : ℕ)
    → length in_buf ≤ 2 ^ 31
    → (t : Trimming) × (trim_case target hash32 exec_cksum in_buf trim_execs ≡ some t)
      × IsKept target hash32 exec_cksum in_buf t.in_buf
unfolding trim_case
trim_case_lem target hash32 exec_cksum in_buf trim_execs h =
    let size = next_p2_lem (length in_buf) h in
    let kept : IsKept target hash32 exec_cksum in_buf in_buf = (omega arith, inl refl) in
    to_some (λ t. IsKept target hash32 exec_cksum in_buf t.in_buf) _
      (bind-Yields (λ (n : ℕ). n ≤ 2 ^ 32) (λ t. IsKept target hash32 exec_cksum in_buf t.in_buf) _
        _
        (of_some _ _ (2 ^ size.0) size.1 (elim size.3 [
          | inl small ↦ omega arith
          | inr z ↦ omega (arith, ap (λ (j : ℕ). 2 ^ j) z)
        ]))
        (λ len_p2 bound.
          branch-Yields (λ t. IsKept target hash32 exec_cksum in_buf t.in_buf)
            (ltb (length in_buf) 5) _ _ (λ e. kept)
            (λ e.
              trim_steps_lem target hash32 exec_cksum in_buf 33 _ _ (omega arith)
                (omega (arith, bound)) h kept)))
