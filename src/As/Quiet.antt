-- ===== src/As/Quiet.antt =====
-- Where add_instrumentation() copies the lines as they are.
use nfuzzer.Base.{
  ℕ, ◌≡◌, ◌⊎◌, inl, inr, refl, ap, ◌∙◌, sym, arith, Bool, true, false, if◌then◌else◌, List, [], ◌∷◌,
  map,
}
use nfuzzer.Base.Bytes.{All}
use nfuzzer.As.{
  Options, Flags, source, Written, opens_text, opens_other, is_jump_table, note_modes, before_line,
  in_mood, after_line, copy_lines,
}
use nfuzzer.As.Emits.{jumped}

module _ {G : Type 0} (random : G → ℕ × G) (o : Options) where
  -- Where nothing is instrumented the lines are copied as they are.
  abbrev Untouched : Flags → List (List ℕ) → Type 0
  Untouched f lines =
      o.pass_thru ≡ true ⊎ (f.instr_ok ≡ false) × All (λ l. opens_text l ≡ false) lines

  before_line-quiet :
      (line : List ℕ) (f : Flags) (g : G)
      → o.pass_thru ≡ true ⊎ f.instr_ok ≡ false
      → before_line random o line f g ≡ record { flags = f; world = g; items = [] }
  unfolding before_line
  before_line-quiet line f g h = ground arith

  -- What a line does in another section than text.
  abbrev Quiet : Flags → Written G → Type 0
  Quiet f w = (w.items ≡ []) × (w.flags.ins_lines ≡ f.ins_lines) × (w.flags.instr_ok ≡ false)

  after_line-pass :
      (line : List ℕ) (f : Flags) (g : G)
      → o.pass_thru ≡ true
      → after_line random o line f g ≡ record { flags = f; world = g; items = [] }
  unfolding after_line
  after_line-pass line f g h = ground (arith, h)

  in_mood-quiet :
      (f : Flags) (line : List ℕ) (g : G)
      → f.instr_ok ≡ false
      → in_mood random o f line g ≡ record { flags = f; world = g; items = [] }
  unfolding in_mood
  in_mood-quiet f line g h = ground (arith, h)

  if-Quiet :
      (f : Flags) (b : Bool) (x y : Written G)
      → (b ≡ true → Quiet f x)
      → (b ≡ false → Quiet f y)
      → Quiet f (if b then x else y)
  if-Quiet f true x y h k = h refl
  if-Quiet f false x y h k = k refl

  jumped_ok :
      (b : Bool) (f : Flags)
      → (if b then record f { skip_next_label = true } else f).instr_ok ≡ f.instr_ok
  jumped_ok true f = refl
  jumped_ok false f = refl

  after_line-Quiet :
      (line : List ℕ) (f : Flags) (g : G)
      → f.instr_ok ≡ false
      → opens_text line ≡ false
      → Quiet f (after_line random o line f g)
  unfolding after_line note_modes
  after_line-Quiet line f g h closed =
      let jump = is_jump_table o f line in
      let f' = if jump then record f { skip_next_label = true } else f in
      let same = jumped jump f in
      let off = jumped_ok jump f ∙ h in
      if-Quiet f o.pass_thru _ _ (λ _. (refl, refl, h))
        λ _.
          if-Quiet f (opens_text line) _ _ (λ e. absurd (cc (sym e ∙ closed)))
            λ _.
              if-Quiet f (opens_other line) _ _ (λ _. (refl, same, refl))
                λ _.
                  let e = in_mood-quiet (note_modes o line f') line g off in
                  (
                    ap (λ (w : Written G). w.items) e,
                    ap (λ (w : Written G). w.flags.ins_lines) e ∙ same,
                    ap (λ (w : Written G). w.flags.instr_ok) e ∙ off,
                  )

  pub pass_through :
      (lines : List (List ℕ)) (f : Flags) (g : G)
      → o.pass_thru ≡ true
      → let w = copy_lines random o lines f g in
        (w.items ≡ map source lines) × (w.flags.ins_lines ≡ f.ins_lines)
  unfolding copy_lines
  pass_through [] f g h = (refl, refl)
  pass_through (line ∷ lines) f g h =
      rw (before_line-quiet line f g (inl h), after_line-pass line f g h)
        (let r = pass_through lines f g h in (ap (λ t. source line ∷ t) r.0, r.1))

  pub no_text :
      (lines : List (List ℕ)) (f : Flags) (g : G)
      → f.instr_ok ≡ false
      → All (λ l. opens_text l ≡ false) lines
      → let w = copy_lines random o lines f g in
        (w.items ≡ map source lines) × (w.flags.ins_lines ≡ f.ins_lines)
  unfolding copy_lines
  no_text [] f g h c = (refl, refl)
  no_text (line ∷ lines) f g h c = rw (before_line-quiet line f g (inr h)) (
      let after = after_line random o line f g in
      let q = after_line-Quiet line f g h c.0 in
      let r = no_text lines after.flags after.world q.2 c.1 in
      (rw q.0 (ap (λ t. source line ∷ t) r.0), r.1 ∙ q.1))
