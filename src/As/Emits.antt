-- ===== src/As/Emits.antt =====
-- What add_instrumentation() writes before and after one line: nothing, or one trampoline.
use native.Mathlib.Nat.{pow-suc}
use nfuzzer.Base.{
  ℕ, zero, suc, ◌+◌, ◌%◌, ◌^◌, ◌<◌, ◌≡◌, ◌⊎◌, inl, inr, refl, subst, ◌∙◌, arith, Bool, true, false,
  not, ltb, ◌&&◌, ◌||◌, ◌==◌, if◌then◌else◌, List, [], ◌∷◌, Bool-cases,
}
use nfuzzer.Config.{map_size}
use nfuzzer.Havoc.Blocks.{ur}
use nfuzzer.As.{
  Options, Flags, trampoline, Written, is_instruction, is_branch, opens_text, opens_other,
  is_jump_table, note_modes, take_label, put_trampoline, before_line, after_branch, after_label,
  in_mood, after_line, byte,
}

pow_pos : (p : ℕ) → 0 < 2 ^ p
pow_pos zero = omega arith
pow_pos (suc p) = omega (arith, pow_pos p, pow-suc 2 p)

-- Nothing is written, or one trampoline where `ok` holds.
abbrev pub Emits : {G : Type 0} → Options → Type 0 → ℕ → Written G → Type 0
Emits o ok count w =
    (w.items ≡ []) × (w.flags.ins_lines ≡ count)
    ⊎ ((n : ℕ) × (w.items ≡ trampoline n ∷ [])
        × (n < map_size o.pow2)
        × ok
        × (w.flags.ins_lines ≡ (count + 1) % 2 ^ 32))

pub jumped :
    (b : Bool) (f : Flags)
    → (if b then record f { skip_next_label = true } else f).ins_lines ≡ f.ins_lines
jumped true f = refl
jumped false f = refl

module _ {G : Type 0} (random : G → ℕ × G) (o : Options) where
  put_trampoline-Emits :
      (ok : Type 0) (f : Flags) (g : G) → ok → Emits o ok f.ins_lines (put_trampoline random o f g)
  unfolding put_trampoline
  put_trampoline-Emits ok f g h =
      let room = pow_pos o.pow2 in
      inr (ur (random g).0 (map_size o.pow2), refl, omega (arith, room), h, refl)

  pub before_line-Emits :
      (line : List ℕ) (f : Flags) (g : G)
      → Emits o (is_instruction o line ≡ true) f.ins_lines (before_line random o line f g)
  unfolding before_line
  before_line-Emits line f g =
      let test =
        not o.pass_thru
        && not f.skip_intel
        && not f.skip_app
        && not f.skip_csect
        && f.instr_ok
        && f.instrument_next
        && is_instruction o line in
      elim (Bool-cases test) [
        | inl due ↦
            rw due (
              put_trampoline-Emits _ (record f { instrument_next = false }) g (ground (arith, due)))
        | inr other ↦ rw other (inl (refl, refl))
      ]

  after_branch-Emits :
      (line : List ℕ) (f : Flags) (g : G)
      → Emits o (is_branch line ≡ true) f.ins_lines (after_branch random o line f g)
  unfolding after_branch
  after_branch-Emits line f g = elim (Bool-cases (is_branch line)) [
    | inl branch ↦ rw branch (elim (Bool-cases (ltb (ur (random g).0 100) o.inst_ratio)) [
      | inl chosen ↦ rw chosen (put_trampoline-Emits _ f (random g).1 refl)
      | inr left ↦ rw left (inl (refl, refl))
    ])
    | inr other ↦ rw other (inl (refl, refl))
  ]

  -- A line that is followed by nothing.
  abbrev Silent : ℕ → Written G → Type 0
  Silent count w = (w.items ≡ []) × (w.flags.ins_lines ≡ count)

  after_label-Silent :
      (line : List ℕ) (f : Flags) (g : G) → Silent f.ins_lines (after_label random o line f g)
  unfolding after_label take_label
  after_label-Silent line f g = ground arith

  if-Emits :
      (ok : Type 0) (count : ℕ) (b : Bool) (x y : Written G)
      → (b ≡ true → Emits o ok count x)
      → (b ≡ false → Emits o ok count y)
      → Emits o ok count (if b then x else y)
  if-Emits ok count true x y h k = h refl
  if-Emits ok count false x y h k = k refl

  in_mood-Emits :
      (f : Flags) (line : List ℕ) (g : G)
      → Emits o (is_branch line ≡ true) f.ins_lines (in_mood random o f line g)
  unfolding in_mood
  in_mood-Emits f line g =
      if-Emits _ _
        (f.skip_intel
          || f.skip_app
          || f.skip_csect
          || not f.instr_ok
          || byte line 0 == b'#'
          || byte line 0 == b' ')
        _ _ (λ _. inl (refl, refl))
        λ _.
          if-Emits _ _ (byte line 0 == 9) _ _ (λ _. after_branch-Emits line f g)
            λ _. inl (after_label-Silent line f g)

  Emits-at : (ok : Type 0) (w : Written G) {c c' : ℕ} → c ≡ c' → Emits o ok c w → Emits o ok c' w
  Emits-at ok w e h = subst (λ (k : ℕ). Emits o ok k w) e h

  noted : (line : List ℕ) (f : Flags) → (note_modes o line f).ins_lines ≡ f.ins_lines
  unfolding note_modes
  noted line f = refl

  pub after_line-Emits :
      (line : List ℕ) (f : Flags) (g : G)
      → Emits o (is_branch line ≡ true) f.ins_lines (after_line random o line f g)
  unfolding after_line
  after_line-Emits line f g =
      let f' = if is_jump_table o f line then record f { skip_next_label = true } else f in
      let same = jumped (is_jump_table o f line) f in
      if-Emits _ _ o.pass_thru _ _ (λ _. inl (refl, refl))
        λ _.
          if-Emits _ _ (opens_text line) _ _ (λ _. inl (refl, same))
            λ _.
              if-Emits _ _ (opens_other line) _ _ (λ _. inl (refl, same))
                λ _.
                  Emits-at _ (in_mood random o (note_modes o line f') line g) (noted line f' ∙ same)
                    (in_mood-Emits (note_modes o line f') line g)
