-- ===== src/As/Placed.antt =====
-- What add_instrumentation() writes: the input, with trampolines at the right places.
use nfuzzer.Base.{
  ℕ, suc, ◌+◌, ◌*◌, ◌%◌, ◌^◌, ◌≤◌, ◌<◌, ◌≡◌, ◌⊎◌, inl, inr, refl, ap, ◌∙◌, arith, Bool, true, false,
  ◌==◌, if◌then◌else◌, List, [], ◌∷◌, ◌++◌, map, length, Bool-cases,
}
use nfuzzer.Base.Bytes.{All}
use nfuzzer.Config.{map_size}
use nfuzzer.As.{
  Options, Flags, Item, source, trampoline, payload, is_instruction, is_branch, opens_text,
  before_line, after_line, copy_lines, start_flags, add_instrumentation,
}
use nfuzzer.As.Emits.{before_line-Emits, after_line-Emits}
use nfuzzer.As.Quiet.{pass_through, no_text}

-- The lines of the input among the items.
pub sources : List Item → List (List ℕ)
sources [] = []
sources (source l ∷ items) = l ∷ sources items
sources (trampoline n ∷ items) = sources items
sources (payload ∷ items) = sources items

pub trampolines : List Item → ℕ
trampolines [] = 0
trampolines (source l ∷ items) = trampolines items
trampolines (trampoline n ∷ items) = suc (trampolines items)
trampolines (payload ∷ items) = trampolines items

pub payloads : List Item → ℕ
payloads [] = 0
payloads (source l ∷ items) = payloads items
payloads (trampoline n ∷ items) = payloads items
payloads (payload ∷ items) = suc (payloads items)

abbrev pub StartsInstruction : Options → List Item → Type 0
StartsInstruction o [] = ⊥
StartsInstruction o (source l ∷ items) = is_instruction o l ≡ true
StartsInstruction o (trampoline n ∷ items) = ⊥
StartsInstruction o (payload ∷ items) = ⊥

-- Each trampoline has a number below MAP_SIZE, and stands just after a conditional branch or just
-- before an instruction; `branch` tells whether a branch has come just before. A payload ends the
-- file.
abbrev pub IsPlaced : Options → Bool → List Item → Type 0
IsPlaced o branch [] = Unit
IsPlaced o branch (source l ∷ items) = IsPlaced o (is_branch l) items
IsPlaced o branch (trampoline n ∷ items) =
    (n < map_size o.pow2) × (branch ≡ true ⊎ StartsInstruction o items) × IsPlaced o false items
IsPlaced o branch (payload ∷ items) = items ≡ []

module _ {G : Type 0} (random : G → ℕ × G) (o : Options) where
  -- What is written for `lines`, with the number of trampolines before and after.
  record IsCopied (count : ℕ) (lines : List (List ℕ)) (items : List Item) (total : ℕ) : Type 0 where
    copied : sources items ≡ lines
    placed : (branch : Bool) → IsPlaced o branch items
    counted : count + 2 * length lines < 2 ^ 32 → total ≡ count + trampolines items
    few : trampolines items ≤ 2 * length lines
    plain : payloads items ≡ 0

  abbrev Emitted : Type 0 → ℕ → List Item → ℕ → Type 0
  Emitted ok count items total =
      (items ≡ []) × (total ≡ count)
      ⊎ ((n : ℕ) × (items ≡ trampoline n ∷ [])
          × (n < map_size o.pow2)
          × ok
          × (total ≡ (count + 1) % 2 ^ 32))

  module _ (line : List ℕ) (lines : List (List ℕ)) (rest : List Item) (total : ℕ) where
    -- The line, what stands after it, and the rest.
    from_line :
        (count count' : ℕ) (after : List Item)
        → Emitted (is_branch line ≡ true) count after count'
        → IsCopied count' lines rest total
        → (sources (source line ∷ (after ++ rest)) ≡ line ∷ lines)
          × IsPlaced o (is_branch line) (after ++ rest)
          × (count + 1 + 2 * length lines < 2 ^ 32 → total ≡ count + trampolines (after ++ rest))
          × (trampolines (after ++ rest) ≤ 2 * length lines + 1)
          × (payloads (after ++ rest) ≡ 0)
    unfolding sources trampolines payloads
    from_line count count' after (inl e) r = rw e.0 (
      ap (λ t. line ∷ t) r.copied,
      r.placed (is_branch line),
      λ small. r.counted (omega (arith, e.1, small)) ∙ omega (arith, e.1),
      omega (arith, r.few),
      r.plain,
    )
    from_line count count' after (inr e) r = rw e.1 (
      ap (λ t. line ∷ t) r.copied,
      (e.2, inl e.3, r.placed false),
      λ small. r.counted (omega (arith, e.4, small)) ∙ omega (arith, e.4, small),
      omega (arith, r.few),
      r.plain,
    )

    line-IsCopied :
        (count count' count'' : ℕ) (before after : List Item)
        → Emitted (is_instruction o line ≡ true) count before count'
        → Emitted (is_branch line ≡ true) count' after count''
        → IsCopied count'' lines rest total
        → IsCopied count (line ∷ lines) (before ++ (source line ∷ (after ++ rest))) total
    unfolding sources trampolines payloads
    line-IsCopied count count' count'' before after (inl e) a r =
        let l = from_line count' count'' after a r in
        rw e.0 (record {
          copied = l.0;
          placed = λ branch. l.1;
          counted = λ small. l.2 (omega (arith, e.1, small)) ∙ omega (arith, e.1);
          few = omega (arith, l.3);
          plain = l.4;
        })
    line-IsCopied count count' count'' before after (inr e) a r =
        let l = from_line count' count'' after a r in
        rw e.1 (record {
          copied = l.0;
          placed = λ branch. (e.2, inr e.3, l.1);
          counted = λ small. l.2 (omega (arith, e.4, small)) ∙ omega (arith, e.4, small);
          few = omega (arith, l.3);
          plain = l.4;
        })

  copy_lines-IsCopied :
      (lines : List (List ℕ)) (f : Flags) (g : G)
      → let w = copy_lines random o lines f g in
        IsCopied f.ins_lines lines w.items w.flags.ins_lines
  unfolding copy_lines sources trampolines payloads
  copy_lines-IsCopied [] f g = record {
    copied = refl;
    placed = λ branch. tt;
    counted = λ small. omega arith;
    few = omega arith;
    plain = refl;
  }
  copy_lines-IsCopied (line ∷ lines) f g =
      let before = before_line random o line f g in
      let after = after_line random o line before.flags before.world in
      line-IsCopied line lines _ _ f.ins_lines before.flags.ins_lines after.flags.ins_lines
        before.items after.items (before_line-Emits random o line f g)
        (after_line-Emits random o line before.flags before.world)
        (copy_lines-IsCopied lines after.flags after.world)

-- A payload at the end leaves the trampolines where they may be.
IsPlaced-payload :
    (o : Options) (branch : Bool) (items : List Item)
    → payloads items ≡ 0
    → IsPlaced o branch items
    → IsPlaced o branch (items ++ (payload ∷ []))
unfolding payloads
IsPlaced-payload o branch [] p h = refl
IsPlaced-payload o branch (source l ∷ items) p h = IsPlaced-payload o (is_branch l) items p h
IsPlaced-payload o branch (trampoline n ∷ items) p h =
    (h.0, starts items h.1, IsPlaced-payload o false items p h.2)
  where
    starts :
        (is : List Item)
        → branch ≡ true ⊎ StartsInstruction o is
        → branch ≡ true ⊎ StartsInstruction o (is ++ (payload ∷ []))
    starts [] (inl e) = inl e
    starts [] (inr x) = elim x [ ]
    starts (source l ∷ is) h = h
    starts (trampoline n ∷ is) h = h
    starts (payload ∷ is) h = h
IsPlaced-payload o branch (payload ∷ items) p h = absurd (omega (arith, p))

with_payload :
    (items : List Item)
    → (sources (items ++ (payload ∷ [])) ≡ sources items)
      × (payloads (items ++ (payload ∷ [])) ≡ payloads items + 1)
      × (trampolines (items ++ (payload ∷ [])) ≡ trampolines items)
unfolding sources payloads trampolines
with_payload [] = (refl, omega arith, refl)
with_payload (source l ∷ items) = let r = with_payload items in (ap (λ t. l ∷ t) r.0, r.1, r.2)
with_payload (trampoline n ∷ items) = let r = with_payload items in (r.0, r.1, ap suc r.2)
with_payload (payload ∷ items) = let r = with_payload items in (r.0, omega (arith, r.1), r.2)

-- A file that is instrumented: its lines are those of the input, in their order; each trampoline has
-- a number below MAP_SIZE and stands just after a conditional branch or just before an instruction;
-- a payload ends it exactly if it has a trampoline; and it is the input where nothing may be
-- instrumented.
pub record IsInstrumented (o : Options) (lines : List (List ℕ)) (items : List Item) : Type 0 where
  pub copied : sources items ≡ lines
  pub placed : IsPlaced o false items
  pub ended : payloads items ≡ (if trampolines items == 0 then 0 else 1)
  pub passed : o.pass_thru ≡ true → items ≡ map source lines
  pub closed : All (λ l. opens_text l ≡ false) lines → items ≡ map source lines

-- For a file of fewer than 2 ^ 31 lines, whatever random() returns: the output has the input's lines
-- in their order. Each trampoline has a number below MAP_SIZE, and stands just after a conditional
-- branch or just before an instruction. A payload stands at the end if there is a trampoline, and
-- there is none otherwise. In pass-through mode, and if no line opens a text section, nothing is
-- inserted.
pub add_instrumentation-IsInstrumented :
    {G : Type 0} (random : G → ℕ × G) (o : Options) (lines : List (List ℕ)) (g : G)
    → length lines < 2 ^ 31
    → IsInstrumented o lines (add_instrumentation random o lines g)
unfolding add_instrumentation start_flags
add_instrumentation-IsInstrumented random o lines g small =
    let f = start_flags random o in
    let w = copy_lines random o lines f g in
    let c = copy_lines-IsCopied random o lines f g in
    let p = with_payload w.items in
    let count : w.flags.ins_lines ≡ trampolines w.items = c.counted (omega arith) ∙ omega arith in
    elim (Bool-cases (w.flags.ins_lines == 0)) [
      | inl bare ↦ rw bare (record {
        copied = c.copied;
        placed = c.placed false;
        ended = ground (arith, c.plain, bare, count);
        passed = λ h. (pass_through random o lines f g h).0;
        closed = λ h. (no_text random o lines f g refl h).0;
      })
      | inr some_lines ↦ rw some_lines (record {
        copied = p.0 ∙ c.copied;
        placed = IsPlaced-payload o false w.items c.plain (c.placed false);
        ended = ground (arith, p.1, p.2, c.plain, some_lines, count);
        passed = λ h. absurd (ground (arith, some_lines, (pass_through random o lines f g h).1));
        closed = λ h. absurd (ground (arith, some_lines, (no_text random o lines f g refl h).1));
      })
    ]
