-- ===== src/Stages/Tries/Restore.antt =====
-- A stage that goes on to its end has put every byte back, and has counted each of its values once,
-- as run or as skipped.
use native.Mathlib.Nat.{mul-zero, mul-suc}
use nfuzzer.Base.{
  ℕ, zero, suc, ◌+◌, ◌-◌, ◌*◌, ◌≤◌, ◌≡◌, refl, ap, ◌∙◌, arith, Bool, List, [], ◌∷◌, length,
}
use nfuzzer.Base.Bytes.{All, IsBytes, load, store, length-store}
use nfuzzer.Stages.Words.{put, bytes_at, put-put, put-bytes_at, store-bytes_at}
use nfuzzer.Stages.Tries.{
  Stage, Going, >>=-Going, branch-Going, Candidate, is_idle, run_target, try_value, try_round,
  try_rounds, try_offset, try_offsets, try_stage,
}

unfoldable pub total : List (List Candidate) → ℕ
total [] = 0
total (r ∷ rs) = length r + total rs

-- Candidates of `n` bytes.
abbrev pub FitRound : ℕ → List Candidate → Type 0
FitRound n = All (λ c. length c.bytes ≡ n)

abbrev pub FitRounds : ℕ → List (List Candidate) → Type 0
FitRounds n = All (FitRound n)

-- With the `w` put back at `i` the buffer is `buf`, and `k` values are still to be counted.
abbrev pub IsOpen : {S : Type 0} → List ℕ → ℕ → List ℕ → ℕ → Stage S → Type 0
IsOpen buf i w k t = (put i w t.out_buf ≡ buf) × (t.stage_max ≡ t.stage_cur + k)

-- The buffer is `buf`, and `k` values are still to be counted.
abbrev pub IsRestored : {S : Type 0} → List ℕ → ℕ → Stage S → Type 0
IsRestored buf k t = (t.out_buf ≡ buf) × (t.stage_max ≡ t.stage_cur + k)

module _ {S : Type 0} (fuzz_stuff : S → List ℕ → S × Bool) where
  pub run_target-Going :
      (P : Stage S → Type 0) (t : Stage S)
      → ((s : S) → P (record t { world = s }))
      → Going P (run_target fuzz_stuff t)
  unfolding run_target
  run_target-Going P t h =
      branch-Going P (fuzz_stuff t.world t.out_buf).1 _ _ (λ e. tt)
        (λ e. h (fuzz_stuff t.world t.out_buf).0)

  module _ (buf : List ℕ) (i : ℕ) (w : List ℕ) where
    try_value-IsOpen :
        (c : Candidate) (k : ℕ) (t : Stage S)
        → length c.bytes ≡ length w
        → IsOpen buf i w (suc k) t
        → Going (IsOpen buf i w k) (try_value fuzz_stuff i c t)
    unfolding try_value
    try_value-IsOpen c k t fit h =
        branch-Going (IsOpen buf i w k) c.skipped _ _ (λ e. (h.0, omega (arith, h.1)))
          (λ e.
            >>=-Going
              (λ (t' : Stage S). (put i w t'.out_buf ≡ buf) × (t'.stage_max ≡ t'.stage_cur + suc k))
              (IsOpen buf i w k) _ _
              (run_target-Going _ (record t { out_buf = put i c.bytes t.out_buf })
                (λ s. (put-put i w c.bytes t.out_buf (omega arith) ∙ h.0, h.1)))
              (λ t' o. (o.0, omega (arith, o.1))))

    try_round-IsOpen :
        (cs : List Candidate) (k : ℕ) (t : Stage S)
        → FitRound (length w) cs
        → IsOpen buf i w (length cs + k) t
        → Going (IsOpen buf i w k) (try_round fuzz_stuff i cs t)
    unfolding try_round
    try_round-IsOpen [] k t fit h = (h.0, omega (arith, h.1))
    try_round-IsOpen (c ∷ cs) k t fit h =
        >>=-Going (IsOpen buf i w (length cs + k)) (IsOpen buf i w k) (try_value fuzz_stuff i c t) _
          (try_value-IsOpen c (length cs + k) t fit.0 (h.0, omega (arith, h.1)))
          (λ t' o. try_round-IsOpen cs k t' fit.1 o)

  module _ (buf : List ℕ) (i n : ℕ) (bytes : IsBytes buf) (fits : i + n ≤ length buf) where
    abbrev orig : ℕ
    orig = load (bytes_at i n buf)

    try_rounds-IsRestored :
        (rs : List (List Candidate)) (k : ℕ) (t : Stage S)
        → FitRounds n rs
        → IsRestored buf (total rs + k) t
        → Going (IsRestored buf k) (try_rounds fuzz_stuff i n orig rs t)
    unfolding try_rounds total
    try_rounds-IsRestored [] k t fit h = (h.0, omega (arith, h.1))
    try_rounds-IsRestored (r ∷ rs) k t fit h =
        let word : store n orig ≡ bytes_at i n buf = store-bytes_at i n buf fits bytes in
        let width : length (store n orig) ≡ n = length-store n orig in
        let start : put i (store n orig) t.out_buf ≡ buf =
          ap (λ (b : List ℕ). put i (store n orig) b) h.0
          ∙ ap (λ (b : List ℕ). put i b buf) word
          ∙ put-bytes_at i n buf in
        >>=-Going (IsOpen buf i (store n orig) (total rs + k)) (IsRestored buf k)
          (try_round fuzz_stuff i r t) _
          (try_round-IsOpen buf i (store n orig) r (total rs + k) t (rw width fit.0)
            (start, omega (arith, h.1)))
          (λ t' o.
            try_rounds-IsRestored rs k (record t' { out_buf = put i (store n orig) t'.out_buf })
              fit.1 o)

  module _ (eff_map buf : List ℕ) (n cost : ℕ) (rounds : ℕ → List (List Candidate)) where
    try_offset-IsRestored :
        (i k : ℕ) (t : Stage S)
        → IsBytes buf
        → i + n ≤ length buf
        → ((o : ℕ) → (total (rounds o) ≡ cost) × FitRounds n (rounds o))
        → IsRestored buf (cost + k) t
        → Going (IsRestored buf k) (try_offset fuzz_stuff eff_map n cost rounds i t)
    unfolding try_offset
    try_offset-IsRestored i k t bytes fits each h =
        branch-Going (IsRestored buf k) (is_idle eff_map i n) _ _ (λ e. (h.0, omega (arith, h.1)))
          (λ e. rw h.0 (
            try_rounds-IsRestored buf i n bytes fits (rounds (load (bytes_at i n buf))) k _
              (each (load (bytes_at i n buf))).1
              (refl, omega (arith, h.1, (each (load (bytes_at i n buf))).0))))

    try_offsets-IsRestored :
        (left i k : ℕ) (t : Stage S)
        → IsBytes buf
        → left + i + n ≤ length buf + 1
        → ((o : ℕ) → (total (rounds o) ≡ cost) × FitRounds n (rounds o))
        → IsRestored buf (cost * left + k) t
        → Going (IsRestored buf k) (try_offsets fuzz_stuff eff_map n cost rounds left i t)
    unfolding try_offsets
    try_offsets-IsRestored zero i k t bytes fits each h = (h.0, omega (arith, h.1, mul-zero cost))
    try_offsets-IsRestored (suc left) i k t bytes fits each h =
        >>=-Going (IsRestored buf (cost * left + k)) (IsRestored buf k) _ _
          (try_offset-IsRestored i (cost * left + k) t bytes (omega arith) each
            (h.0, omega (arith, h.1, mul-suc cost left)))
          (λ t' o. try_offsets-IsRestored left (i + 1) k t' bytes (omega arith) each o)

    -- A stage of which every offset offers `cost` candidates of `n` bytes: if it goes on to its
    -- end, the buffer is what it was and `stage_cur`, the number of runs, is `stage_max`, from which
    -- every value that was not run has been taken.
    pub try_stage-IsRestored :
        (s : S)
        → IsBytes buf
        → n ≤ length buf
        → ((o : ℕ) → (total (rounds o) ≡ cost) × FitRounds n (rounds o))
        → Going (IsRestored buf 0) (try_stage fuzz_stuff eff_map n cost rounds buf s)
    unfolding try_stage
    try_stage-IsRestored s bytes fits each =
        try_offsets-IsRestored (length buf + 1 - n) 0 0 _ bytes (omega arith) each
          (refl, omega arith)
