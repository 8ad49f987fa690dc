-- ===== src/Analyze/Classes.antt =====
-- The variants of a byte that analyze() tries, and what the class and the highest bit tell of the
-- checksums.
use nfuzzer.Base.{
  ℕ, zero, suc, ◌+◌, ◌%◌, ◌/◌, ◌≤◌, ◌<◌, ◌≡◌, ◌⊎◌, inl, inr, refl, ap, sym, ◌∙◌, arith, Bool, true,
  false, not, ◌||◌, ◌&&◌, ◌==◌, ◌≢◌, Bool-cases, if◌then◌else◌, bit_or, bit_xor, List, [], ◌∷◌,
  get_or, set, none,
}
use nfuzzer.Base.Bytes.{All}
use nfuzzer.Base.Xor.{bit_xor_step, bit_xor-swap}
use nfuzzer.Tmin.Verdict.{Observed, cannot_execute}
use nfuzzer.Analyze.{Analysis, Cksums, response, behavior, next_seq}

bit_xor_zero_fuel : (n a : ℕ) → a ≤ n → bit_xor 0 a ≡ a
bit_xor_zero_fuel zero a h = let p : a ≡ 0 = omega arith in rw p refl
bit_xor_zero_fuel (suc n) a h = ground (arith, bit_xor_step 0 a, bit_xor_zero_fuel n (a / 2))

bit_xor_comm : (a b : ℕ) → bit_xor a b ≡ bit_xor b a
bit_xor_comm a b =
    ap (λ (x : ℕ). bit_xor x b) (sym (bit_xor_zero_fuel a a (omega arith)))
    ∙ bit_xor-swap 0 a b
    ∙ ap (λ (x : ℕ). bit_xor x a) (bit_xor_zero_fuel b b (omega arith))

-- `^ 0xff` and then `^ 0xfe` is `^ 0x01`.
pub flip_lowest : (x : ℕ) → bit_xor (bit_xor x 0xff) 0xfe ≡ bit_xor x 0x01
flip_lowest x =
    ap (λ (y : ℕ). bit_xor y 0xfe) (bit_xor_comm x 0xff)
    ∙ bit_xor-swap 0xff x 0xfe
    ∙ bit_xor_comm 0x01 x

pub set_back : (xs : List ℕ) (i : ℕ) → set xs i (get_or xs i 0) ≡ xs
set_back [] i = refl
set_back (x ∷ xs) zero = refl
set_back (x ∷ xs) (suc i) = ap (λ t. x ∷ t) (set_back xs i)

pub byte_at : (xs : List ℕ) (i : ℕ) → All (λ b. b < 256) xs → get_or xs i 0 < 256
byte_at [] i h = omega arith
byte_at (x ∷ xs) zero h = h.0
byte_at (x ∷ xs) (suc i) h = byte_at xs i h.1

-- The lower bits of a byte of `b_data`.
pub low_bits : (c s : ℕ) → c < 4 → s ≡ 0 ⊎ s ≡ 128 → bit_or c s % 128 ≡ c
low_bits zero s h (inl e) = rw e refl
low_bits zero s h (inr e) = rw e refl
low_bits (suc zero) s h (inl e) = rw e refl
low_bits (suc zero) s h (inr e) = rw e refl
low_bits (suc (suc zero)) s h (inl e) = rw e refl
low_bits (suc (suc zero)) s h (inr e) = rw e refl
low_bits (suc (suc (suc zero))) s h (inl e) = rw e refl
low_bits (suc (suc (suc zero))) s h (inr e) = rw e refl
low_bits (suc (suc (suc (suc c)))) s h k = absurd (omega arith)

pub behavior-lt : (orig_cksum : ℕ) (c : Cksums) → behavior orig_cksum c < 4
unfolding behavior
behavior-lt orig_cksum c = ground arith

pub next_seq_lem :
    (prev c : Cksums) (s : ℕ) → s ≡ 0 ⊎ s ≡ 128 → next_seq prev c s ≡ 0 ⊎ next_seq prev c s ≡ 128
unfolding next_seq
next_seq_lem prev c s h = choose _ h
  where
    choose :
        (b : Bool)
        → s ≡ 0 ⊎ s ≡ 128
        → (if b then bit_xor s 0x80 else s) ≡ 0 ⊎ (if b then bit_xor s 0x80 else s) ≡ 128
    choose true (inl e) = inr (rw e refl)
    choose true (inr e) = inl (rw e refl)
    choose false h = h

-- A run that ends the process: the target could not be executed, or the user has stopped it.
abbrev pub EndsProcess : Observed → Type 0
EndsProcess seen = cannot_execute seen.trace_bits ≡ true ⊎ seen.stop_soon ≡ true

pub response-EndsProcess :
    (a : Analysis) (seen : Observed) → response a seen ≡ none → EndsProcess seen
unfolding response
response-EndsProcess a seen e = elim (Bool-cases (cannot_execute seen.trace_bits)) [
  | inl failed ↦ inl failed
  | inr ran ↦ inr (ground (arith, ran, e))
]

-- What the class of a byte tells of the four checksums: 0 if all are the original one, 1 if only some
-- are, 3 if none is and all four agree, and 2 if none is and they do not agree.
abbrev pub IsClass : ℕ → Cksums → ℕ → Type 0
IsClass orig c k =
    let all : Type 0 =
      (c.xor_ff ≡ orig) × (c.xor_01 ≡ orig) × (c.sub_10 ≡ orig) × (c.add_10 ≡ orig) in
    let none_is : Type 0 =
      (c.xor_ff ≢ orig) × (c.xor_01 ≢ orig) × (c.sub_10 ≢ orig) × (c.add_10 ≢ orig) in
    let agree : Type 0 = (c.xor_01 ≡ c.xor_ff) × (c.sub_10 ≡ c.xor_ff) × (c.add_10 ≡ c.xor_ff) in
    (k ≡ 0) × all
    ⊎ ((k ≡ 1) × (all → ⊥) × (none_is → ⊥)
        ⊎ ((k ≡ 3) × none_is × agree ⊎ (k ≡ 2) × none_is × (agree → ⊥)))

pub behavior-IsClass : (orig : ℕ) (c : Cksums) → IsClass orig c (behavior orig c)
unfolding behavior
behavior-IsClass orig c =
    let all = c.xor_ff == orig && c.xor_01 == orig && c.sub_10 == orig && c.add_10 == orig in
    let any = c.xor_ff == orig || c.xor_01 == orig || c.sub_10 == orig || c.add_10 == orig in
    let agree = c.xor_ff == c.xor_01 && c.xor_ff == c.sub_10 && c.xor_ff == c.add_10 in
    elim (Bool-cases all) [
      | inl e ↦ inl (
        ground (arith, e),
        (ground (arith, e), ground (arith, e), ground (arith, e), ground (arith, e)),
      )
      | inr e ↦ elim (Bool-cases any) [
        | inl f ↦ inr (
            inl (
              ground (arith, e, f),
              (λ h. absurd (ground (arith, e, h))),
              λ h. absurd (ground (arith, f, h.0, h.1, h.2, h.3)),
            ))
        | inr f ↦
            let none_is : (c.xor_ff ≢ orig)
                × (c.xor_01 ≢ orig)
                × (c.sub_10 ≢ orig)
                × (c.add_10 ≢ orig) =
              (
                (λ (h : c.xor_ff ≡ orig). absurd (ground (arith, f, h))),
                (λ (h : c.xor_01 ≡ orig). absurd (ground (arith, f, h))),
                (λ (h : c.sub_10 ≡ orig). absurd (ground (arith, f, h))),
                λ (h : c.add_10 ≡ orig). absurd (ground (arith, f, h)),
              ) in
            elim (Bool-cases agree) [
              | inl g ↦ inr (
                  inr (
                    inl (
                      ground (arith, e, f, g),
                      none_is,
                      (ground (arith, g), ground (arith, g), ground (arith, g)),
                    )))
              | inr g ↦
                  inr (
                    inr
                      (inr (ground (arith, e, f, g), none_is, λ h. absurd (ground (arith, g, h)))))
            ]
      ]
    ]

-- All four checksums differ from those of the byte before.
abbrev pub AllDiffer : Cksums → Cksums → Type 0
AllDiffer prev c =
    (prev.xor_ff ≢ c.xor_ff)
    × (prev.xor_01 ≢ c.xor_01)
    × (prev.sub_10 ≢ c.sub_10)
    × (prev.add_10 ≢ c.add_10)

-- The highest bit, which was `s`, turns when they all differ.
abbrev pub Turns : Cksums → Cksums → ℕ → ℕ → Type 0
Turns prev c s t = AllDiffer prev c × (t + s ≡ 1) ⊎ (AllDiffer prev c → ⊥) × (t ≡ s)

pub next_seq-Turns :
    (prev c : Cksums) (s : ℕ) → s ≡ 0 ⊎ s ≡ 128 → Turns prev c (s / 128) (next_seq prev c s / 128)
unfolding next_seq
next_seq-Turns prev c s h =
    let test =
      not (prev.xor_ff == c.xor_ff)
      && not (prev.xor_01 == c.xor_01)
      && not (prev.sub_10 == c.sub_10)
      && not (prev.add_10 == c.add_10) in
    elim (Bool-cases test) [
      | inl e ↦ rw e (
          inl (
            (
              (λ d. absurd (ground (arith, e, d))),
              (λ d. absurd (ground (arith, e, d))),
              (λ d. absurd (ground (arith, e, d))),
              λ d. absurd (ground (arith, e, d)),
            ),
            turned h,
          ))
      | inr e ↦ rw e (inr ((λ d. absurd (ground (arith, e, d.0, d.1, d.2, d.3))), refl))
    ]
  where
    turned : s ≡ 0 ⊎ s ≡ 128 → bit_xor s 0x80 / 128 + s / 128 ≡ 1
    turned (inl e) = rw e refl
    turned (inr e) = rw e refl

pub high_bit : (c s : ℕ) → c < 4 → s ≡ 0 ⊎ s ≡ 128 → bit_or c s / 128 ≡ s / 128
high_bit zero s h (inl e) = rw e refl
high_bit zero s h (inr e) = rw e refl
high_bit (suc zero) s h (inl e) = rw e refl
high_bit (suc zero) s h (inr e) = rw e refl
high_bit (suc (suc zero)) s h (inl e) = rw e refl
high_bit (suc (suc zero)) s h (inr e) = rw e refl
high_bit (suc (suc (suc zero))) s h (inl e) = rw e refl
high_bit (suc (suc (suc zero))) s h (inr e) = rw e refl
high_bit (suc (suc (suc (suc c)))) s h k = absurd (omega arith)
