-- ===== src/Stages/Values/Restore.antt =====
-- The six value stages put every byte back and count every value once.
use native.Mathlib.Nat.{mul-zero, mul-suc}
use nfuzzer.Base.{ℕ, zero, suc, ◌+◌, ◌*◌, ◌≤◌, ◌≡◌, refl, arith, Bool, List, [], ◌∷◌, length}
use nfuzzer.Base.Bytes.{IsBytes, length-store}
use nfuzzer.Havoc.Dupes.{arith_max, interesting_8, interesting_16, interesting_32, swap16, swap32}
use nfuzzer.Stages.Tries.{Going, Candidate}
use nfuzzer.Stages.Tries.Restore.{total, FitRound, FitRounds, IsRestored, try_stage-IsRestored}
use nfuzzer.Stages.Values.{
  arith8_round, arith16_round, arith32_round, arith_rounds, interest8_rounds, interest_pair,
  interest_round, arith8, arith16, arith32, interest8, interest16, interest32,
}

-- What the lemma on whole stages asks of the rounds at an offset.
abbrev Costs : ℕ → ℕ → List (List Candidate) → Type 0
Costs n cost rs = (total rs ≡ cost) × FitRounds n rs

arith_rounds-Costs :
    (n per : ℕ) (round : ℕ → List Candidate)
    → ((j : ℕ) → (length (round j) ≡ per) × FitRound n (round j))
    → (left j : ℕ) → Costs n (per * left) (arith_rounds round left j)
unfolding arith_rounds total
arith_rounds-Costs n per round each zero j = (omega (arith, mul-zero per), tt)
arith_rounds-Costs n per round each (suc left) j =
    let rest = arith_rounds-Costs n per round each left (j + 1) in
    (omega (arith, (each j).0, rest.0, mul-suc per left), ((each j).1, rest.1))

interest8_rounds-Costs : (orig : ℕ) (vs : List ℕ) → Costs 1 (length vs) (interest8_rounds orig vs)
unfolding interest8_rounds total
interest8_rounds-Costs orig [] = (refl, tt)
interest8_rounds-Costs orig (v ∷ vs) =
    let rest = interest8_rounds-Costs orig vs in
    (omega (arith, rest.0), ((length-store 1 v, tt), rest.1))

interest_round-FitRound :
    (n : ℕ) (swap : ℕ → ℕ) (orig : ℕ) (vs : List ℕ)
    → (length (interest_round n swap orig vs) ≡ 2 * length vs)
      × FitRound n (interest_round n swap orig vs)
unfolding interest_round interest_pair
interest_round-FitRound n swap orig [] = (refl, tt)
interest_round-FitRound n swap orig (v ∷ vs) =
    let rest = interest_round-FitRound n swap orig vs in
    (omega (arith, rest.0), (length-store n v, (length-store n (swap v), rest.1)))

module _ {S : Type 0} (fuzz_stuff : S → List ℕ → S × Bool) (eff_map buf : List ℕ) (s : S) where
  pub arith8-IsRestored :
      IsBytes buf → 1 ≤ length buf → Going (IsRestored buf 0) (arith8 fuzz_stuff eff_map buf s)
  unfolding arith8 arith8_round
  arith8-IsRestored b h = try_stage-IsRestored fuzz_stuff eff_map buf 1 70 _ s b h (λ orig.
      arith_rounds-Costs 1 2 (arith8_round orig)
        (λ j. (refl, (length-store 1 _, (length-store 1 _, tt)))) arith_max 1)

  pub arith16-IsRestored :
      IsBytes buf → 2 ≤ length buf → Going (IsRestored buf 0) (arith16 fuzz_stuff eff_map buf s)
  unfolding arith16 arith16_round
  arith16-IsRestored b h = try_stage-IsRestored fuzz_stuff eff_map buf 2 140 _ s b h (λ orig.
      arith_rounds-Costs 2 4 (arith16_round orig)
        (λ j. (
          refl,
          (length-store 2 _, (length-store 2 _, (length-store 2 _, (length-store 2 _, tt)))),
        ))
        arith_max 1)

  pub arith32-IsRestored :
      IsBytes buf → 4 ≤ length buf → Going (IsRestored buf 0) (arith32 fuzz_stuff eff_map buf s)
  unfolding arith32 arith32_round
  arith32-IsRestored b h = try_stage-IsRestored fuzz_stuff eff_map buf 4 140 _ s b h (λ orig.
      arith_rounds-Costs 4 4 (arith32_round orig)
        (λ j. (
          refl,
          (length-store 4 _, (length-store 4 _, (length-store 4 _, (length-store 4 _, tt)))),
        ))
        arith_max 1)

  pub interest8-IsRestored :
      IsBytes buf → 1 ≤ length buf → Going (IsRestored buf 0) (interest8 fuzz_stuff eff_map buf s)
  unfolding interest8 interesting_8
  interest8-IsRestored b h =
      try_stage-IsRestored fuzz_stuff eff_map buf 1 9 _ s b h
        (λ orig. interest8_rounds-Costs orig (interesting_8 8))

  pub interest16-IsRestored :
      IsBytes buf → 2 ≤ length buf → Going (IsRestored buf 0) (interest16 fuzz_stuff eff_map buf s)
  unfolding interest16 interesting_16 interesting_8 total
  interest16-IsRestored b h = try_stage-IsRestored fuzz_stuff eff_map buf 2 38 _ s b h (λ orig.
      let r = interest_round-FitRound 2 swap16 orig (interesting_16 16) in
      (omega (arith, r.0), (r.1, tt)))

  pub interest32-IsRestored :
      IsBytes buf → 4 ≤ length buf → Going (IsRestored buf 0) (interest32 fuzz_stuff eff_map buf s)
  unfolding interest32 interesting_32 interesting_16 interesting_8 total
  interest32-IsRestored b h = try_stage-IsRestored fuzz_stuff eff_map buf 4 54 _ s b h (λ orig.
      let r = interest_round-FitRound 4 swap32 orig interesting_32 in
      (omega (arith, r.0), (r.1, tt)))
