-- ===== src/Stages/Effector/Flags.antt =====
-- What the effector map of bitflip 8/8 holds: `eff_cnt` is the number of its flags.
use nfuzzer.Base.{
  ℕ, zero, suc, ◌+◌, ◌-◌, ◌<◌, ◌≡◌, refl, arith, Bool, ◌==◌, List, [], ◌∷◌, length, get_or, set,
  replicate, if◌then◌else◌, length-set, length-replicate, ℕ_discrete, get_or-set_ne, ◌∙◌, sym,
}
use nfuzzer.Stages.Tries.{eff_apos}
use nfuzzer.Stages.Effector.{Effects, eff_alen, start_effects, note_effect, settle}

-- How many bytes of a map are set.
unfoldable pub flags : List ℕ → ℕ
flags [] = 0
flags (x ∷ xs) = (if x == 0 then 0 else 1) + flags xs

flags-set :
    (xs : List ℕ) (i : ℕ) → i < length xs → get_or xs i 0 ≡ 0 → flags (set xs i 1) ≡ flags xs + 1
unfolding flags
flags-set [] i h e = absurd (omega arith)
flags-set (x ∷ xs) zero h e = ground arith
flags-set (x ∷ xs) (suc i) h e = omega (arith, flags-set xs i (omega arith) e)

flags-replicate_zero : (n : ℕ) → flags (replicate n 0) ≡ 0
unfolding flags
flags-replicate_zero zero = refl
flags-replicate_zero (suc n) = omega (arith, flags-replicate_zero n)

flags-replicate_one : (n : ℕ) → flags (replicate n 1) ≡ n
unfolding flags
flags-replicate_one zero = refl
flags-replicate_one (suc n) = omega (arith, flags-replicate_one n)

-- A map of the right length for `len` bytes, whose flags are counted.
abbrev pub AreCounted : ℕ → Effects → Type 0
AreCounted len e = (length e.eff_map ≡ eff_alen len) × (flags e.eff_map ≡ e.eff_cnt)

pub note_effect-AreCounted :
    (len pos : ℕ) (differs : Bool) (e : Effects)
    → pos < len
    → AreCounted len e
    → AreCounted len (note_effect pos differs e)
unfolding note_effect
note_effect-AreCounted len pos differs e h c =
    ground (arith, length-set e.eff_map (eff_apos pos) 1, flags-set e.eff_map (eff_apos pos))

get_or-replicate_zero : (n i : ℕ) → get_or {A = ℕ} (replicate n 0) i 0 ≡ 0
get_or-replicate_zero zero i = refl
get_or-replicate_zero (suc n) zero = refl
get_or-replicate_zero (suc n) (suc i) = get_or-replicate_zero n i

eff_apos-lt-alen : (pos len : ℕ) → pos < len → eff_apos pos < eff_alen len
eff_apos-lt-alen pos len h = ground arith

pub start_effects-AreCounted : (len : ℕ) → 0 < len → AreCounted len (start_effects len)
unfolding start_effects
start_effects-AreCounted len h =
    let n = eff_alen len in
    let zeros : List ℕ = replicate n 0 in
    let last = eff_apos (len - 1) in
    let size : length zeros ≡ n = length-replicate n 0 in
    let room : 0 < n = eff_apos-lt-alen 0 len h in
    let one : flags (set zeros 0 1) ≡ flags zeros + 1 =
      flags-set zeros 0 (omega arith) (get_or-replicate_zero n 0) in
    elim (ℕ_discrete last 0) [
      | yes e ↦ ground (arith, e, size, one, flags-replicate_zero n, length-set zeros 0 1)
      | no far ↦
          let clear : get_or (set zeros 0 1) last 0 ≡ 0 =
            get_or-set_ne zeros 0 last 1 0 (λ e. far (sym e)) ∙ get_or-replicate_zero n last in
          let inside : last < length (set zeros 0 1) =
            omega
              (arith, length-set zeros 0 1, size, eff_apos-lt-alen (len - 1) len (omega arith)) in
          ground (
            arith,
            size,
            one,
            flags-replicate_zero n,
            length-set zeros 0 1,
            length-set (set zeros 0 1) last 1,
            flags-set (set zeros 0 1) last inside clear,
          )
    ]

pub settle-AreCounted :
    (len : ℕ) (e : Effects)
    → AreCounted len e
    → (length (settle len e).0.eff_map ≡ eff_alen len)
      × (flags (settle len e).0.eff_map ≡ (settle len e).1)
unfolding settle
settle-AreCounted len e c =
    ground (arith, length-replicate {A = ℕ} (eff_alen len) 1, flags-replicate_one (eff_alen len))
