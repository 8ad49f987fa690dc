-- ===== src/Tree/Shift.antt =====
-- What increase_byte_positions_except_target_children() of fuzzer/smart-chunks.c does to the parts of
-- a file, as adopt_chunk() of fuzzer/afl-fuzz.c calls it: for the first byte of a target and for
-- bytes that are put in just behind its last one.
use nfuzzer.Base.{
  ℕ, zero, suc, ◌+◌, ◌-◌, ◌^◌, ◌<◌, ◌≤◌, ◌≡◌, ◌⊎◌, inl, inr, refl, subst, Bool-cases, sym, ◌∙◌,
  arith, ap, Bool, true, false, ◌==◌, ltb, leb, ◌&&◌, if◌then◌else◌, List, [], ◌∷◌, ◌++◌, length,
  take, drop, length-drop,
}
use nfuzzer.Stages.Words.{bytes_at}
use nfuzzer.Tree.{
  Fields, Tree, null, chunk, is_nonneg, is_above, increase_start, increase_end, increase_fields,
  increase_byte_positions_except_target_children,
}

-- A property of every chunk of a tree.
abbrev pub Each : (Fields → Type 0) → Tree → Type 0
Each P null = Unit
Each P (chunk f next children) = P f × Each P next × Each P children

-- A file with a gap put in before the byte at `at`.
unfoldable pub opened : ℕ → List ℕ → List ℕ → List ℕ
opened zero gap b = gap ++ b
opened (suc at) gap [] = gap
opened (suc at) gap (x ∷ b) = x ∷ opened at gap b

take-opened_before :
    (n at : ℕ) (gap b : List ℕ) → n ≤ at → at ≤ length b → take n (opened at gap b) ≡ take n b
unfolding opened
take-opened_before zero at gap b h l = refl
take-opened_before (suc n) zero gap b h l = absurd (omega arith)
take-opened_before (suc n) (suc at) gap [] h l = absurd (omega arith)
take-opened_before (suc n) (suc at) gap (x ∷ b) h l =
    ap (λ t. x ∷ t) (take-opened_before n at gap b (omega arith) (omega arith))

drop-opened :
    (start at : ℕ) (gap b : List ℕ)
    → start ≤ at
    → at ≤ length b
    → drop start (opened at gap b) ≡ opened (at - start) gap (drop start b)
unfolding opened
drop-opened zero at gap b h l = ap (λ (k : ℕ). opened k gap b) (omega arith)
drop-opened (suc start) zero gap b h l = absurd (omega arith)
drop-opened (suc start) (suc at) gap [] h l = absurd (omega arith)
drop-opened (suc start) (suc at) gap (x ∷ b) h l =
    drop-opened start at gap b (omega arith) (omega arith)
    ∙ ap (λ (k : ℕ). opened k gap (drop start b)) (omega arith)

drop-gap : (start : ℕ) (gap b : List ℕ) → drop (start + length gap) (gap ++ b) ≡ drop start b
drop-gap start [] b = ap (λ (k : ℕ). drop k b) (omega arith)
drop-gap start (g ∷ gap) b =
    let e : start + length (g ∷ gap) ≡ suc (start + length gap) = omega arith in
    ap (λ (k : ℕ). drop k (g ∷ (gap ++ b))) e ∙ drop-gap start gap b

drop-opened_behind :
    (start at : ℕ) (gap b : List ℕ)
    → at ≤ start
    → at ≤ length b
    → drop (start + length gap) (opened at gap b) ≡ drop start b
unfolding opened
drop-opened_behind start zero gap b h l = drop-gap start gap b
drop-opened_behind zero (suc at) gap b h l = absurd (omega arith)
drop-opened_behind (suc start) (suc at) gap [] h l = absurd (omega arith)
drop-opened_behind (suc start) (suc at) gap (x ∷ b) h l =
    let e : suc start + length gap ≡ suc (start + length gap) = omega arith in
    ap (λ (k : ℕ). drop k (x ∷ opened at gap b)) e
    ∙ drop-opened_behind start at gap b (omega arith) (omega arith)

take-gap : (n : ℕ) (gap b : List ℕ) → take (n + length gap) (gap ++ b) ≡ gap ++ take n b
take-gap n [] b = ap (λ (k : ℕ). take k b) (omega arith)
take-gap n (g ∷ gap) b =
    let e : n + length (g ∷ gap) ≡ suc (n + length gap) = omega arith in
    ap (λ (k : ℕ). take k (g ∷ (gap ++ b))) e ∙ ap (λ t. g ∷ t) (take-gap n gap b)

take-opened :
    (n at : ℕ) (gap b : List ℕ)
    → at ≤ n
    → at ≤ length b
    → take (n + length gap) (opened at gap b) ≡ opened at gap (take n b)
unfolding opened
take-opened n zero gap b h l = take-gap n gap b
take-opened zero (suc at) gap b h l = absurd (omega arith)
take-opened (suc n) (suc at) gap [] h l = absurd (omega arith)
take-opened (suc n) (suc at) gap (x ∷ b) h l =
    let e : suc n + length gap ≡ suc (n + length gap) = omega arith in
    ap (λ (k : ℕ). take k (x ∷ opened at gap b)) e
    ∙ ap (λ t. x ∷ t) (take-opened n at gap b (omega arith) (omega arith))

-- The bytes of a chunk; a chunk with a negative first position has none that are known.
abbrev pub part_of : Fields → List ℕ → List ℕ
part_of f b =
    if ltb f.start_byte (2 ^ 31)
    then bytes_at f.start_byte (f.end_byte + 1 - f.start_byte) b
    else []

-- How a chunk lies to the bytes from `first` to `last` in a file of `len` bytes: it has no known
-- place, or holds them, or lies behind or before them.
abbrev pub IsPlaced : ℕ → ℕ → ℕ → Fields → Type 0
IsPlaced first last len f =
    2 ^ 31 ≤ f.start_byte
    ⊎ ((f.start_byte ≤ first) × (last ≤ f.end_byte) × (f.end_byte < len)
        ⊎ ((last < f.start_byte) × (f.start_byte ≤ f.end_byte) × (f.end_byte < len)
            ⊎ (f.start_byte ≤ f.end_byte) × (f.end_byte < first)))

-- All chunks but those below the target.
abbrev pub ArePlaced : ℕ → ℕ → ℕ → ℕ → Tree → Type 0
ArePlaced target first last len null = Unit
ArePlaced target first last len (chunk f next children) =
    IsPlaced first last len f
    × ArePlaced target first last len next
    × (if f.address == target then Unit {0} else ArePlaced target first last len children)

-- The bytes of a chunk, with the gap if it holds the target.
abbrev pub grown : ℕ → ℕ → List ℕ → Fields → List ℕ → List ℕ
grown first last gap f b =
    if leb f.start_byte first && leb last f.end_byte && ltb f.start_byte (2 ^ 31)
    then opened (last + 1 - f.start_byte) gap (part_of f b)
    else part_of f b

-- The tree after the gap was opened: the same chunks, with their bytes in the new file; the chunks
-- below the target are as they were.
pub IsOpened : ℕ → ℕ → ℕ → List ℕ → List ℕ → Tree → Tree → Type 0
IsOpened target first last gap b null c = c ≡ null
IsOpened target first last gap b (chunk f next children) null = ⊥
IsOpened target first last gap b (chunk f next children) (chunk g next' children') =
    (g ≡ record f { start_byte = g.start_byte; end_byte = g.end_byte })
    × (part_of g (opened (last + 1) gap b) ≡ grown first last gap f b)
    × IsOpened target first last gap b next next'
    × (if f.address == target
        then children' ≡ children
        else IsOpened target first last gap b children children')

known_part :
    (g : Fields) (b : List ℕ) (v w : ℕ)
    → g.start_byte ≡ v
    → g.end_byte ≡ w
    → v < 2 ^ 31
    → part_of g b ≡ bytes_at v (w + 1 - v) b
known_part g b v w p q small =
    let e : ltb v (2 ^ 31) ≡ true = ground (arith, small) in rw (p, q, e) refl

unknown_part : (g : Fields) (b : List ℕ) → 2 ^ 31 ≤ g.start_byte → part_of g b ≡ []
unknown_part g b h = let e : ltb g.start_byte (2 ^ 31) ≡ false = ground (arith, h) in rw e refl

module _ (first last : ℕ) (gap b : List ℕ) (order : first ≤ last) (inside : last < length b)
    (small : length b + length gap < 2 ^ 31) where
  grown_apart :
      (f : Fields)
      → (leb f.start_byte first && leb last f.end_byte && ltb f.start_byte (2 ^ 31)) ≡ false
      → grown first last gap f b ≡ part_of f b
  grown_apart f e = rw e refl

  grown_around :
      (f : Fields)
      → f.start_byte ≤ first
      → last ≤ f.end_byte
      → grown first last gap f b
        ≡ opened
            (last + 1 - f.start_byte)
            gap
            (bytes_at f.start_byte (f.end_byte + 1 - f.start_byte) b)
  grown_around f p q =
      let e : (leb f.start_byte first && leb last f.end_byte && ltb f.start_byte (2 ^ 31)) ≡ true =
        ground (arith, p, q, order, inside, small) in
      rw e (
        ap (opened (last + 1 - f.start_byte) gap) (
          known_part f b f.start_byte f.end_byte refl refl
            (omega (arith, p, order, inside, small))))

  -- The bytes of a chunk in the new file.
  increase-part_of :
      (f : Fields)
      → IsPlaced first last (length b) f
      → part_of (increase_fields first (length gap) f) (opened (last + 1) gap b)
        ≡ grown first last gap f b
  unfolding increase_fields increase_start increase_end is_nonneg is_above
  increase-part_of f (inl unknown) =
      unknown_part (increase_fields first (length gap) f) (opened (last + 1) gap b)
        (ground (arith, unknown))
      ∙ sym (grown_apart f (ground (arith, unknown)) ∙ unknown_part f b unknown)
  increase-part_of f (inr (inl around)) =
      let n = f.end_byte + 1 - f.start_byte in
      let bound : f.start_byte < 2 ^ 31 = omega (arith, around, order, inside, small) in
      let e : f.end_byte + length gap + 1 - f.start_byte ≡ n + length gap =
        omega (arith, around, order) in
      known_part (increase_fields first (length gap) f) (opened (last + 1) gap b) f.start_byte
        (f.end_byte + length gap) (ground (arith, around, order, inside, small))
        (ground (arith, around, order, inside, small)) bound
      ∙ ap (λ (k : ℕ). bytes_at f.start_byte k (opened (last + 1) gap b)) e
      ∙ ap (take (n + length gap)) (
          drop-opened f.start_byte (last + 1) gap b (omega (arith, around, order))
            (omega (arith, inside)))
      ∙ take-opened n (last + 1 - f.start_byte) gap (drop f.start_byte b)
          (omega (arith, around, order))
          (omega (arith, length-drop f.start_byte b, around, order, inside))
      ∙ sym (grown_around f around.0 around.1)
  increase-part_of f (inr (inr (inl behind))) =
      let n = f.end_byte + 1 - f.start_byte in
      let bound : f.start_byte + length gap < 2 ^ 31 = omega (arith, behind, inside, small) in
      let e : f.end_byte + length gap + 1 - (f.start_byte + length gap) ≡ n = omega arith in
      known_part (increase_fields first (length gap) f) (opened (last + 1) gap b)
        (f.start_byte + length gap) (f.end_byte + length gap)
        (ground (arith, behind, order, inside, small))
        (ground (arith, behind, order, inside, small)) bound
      ∙ ap (λ (k : ℕ). bytes_at (f.start_byte + length gap) k (opened (last + 1) gap b)) e
      ∙ ap (take n) (
          drop-opened_behind f.start_byte (last + 1) gap b (omega (arith, behind))
            (omega (arith, inside)))
      ∙ sym (
          grown_apart f (ground (arith, behind, order))
          ∙ known_part f b f.start_byte f.end_byte refl refl (omega (arith, bound)))
  increase-part_of f (inr (inr (inr before))) =
      let n = f.end_byte + 1 - f.start_byte in
      let bound : f.start_byte < 2 ^ 31 = omega (arith, before, order, inside, small) in
      known_part (increase_fields first (length gap) f) (opened (last + 1) gap b) f.start_byte
        f.end_byte (ground (arith, before, order, inside, small))
        (ground (arith, before, order, inside, small)) bound
      ∙ ap (take n) (
          drop-opened f.start_byte (last + 1) gap b (omega (arith, before, order))
            (omega (arith, inside)))
      ∙ take-opened_before n (last + 1 - f.start_byte) gap (drop f.start_byte b)
          (omega (arith, before, order))
          (omega (arith, length-drop f.start_byte b, before, order, inside))
      ∙ sym (
          grown_apart f (ground (arith, before, order))
          ∙ known_part f b f.start_byte f.end_byte refl refl bound)

  -- For bytes that are put in just behind the last byte of a target, in a file that stays below
  -- 2 ^ 31 bytes: if each chunk that is not below the target has no known first byte, or holds the
  -- bytes of the target, or has none of them and lies in the file, then the tree for the first byte of
  -- the target has the same chunks with positions such that each of these has its old bytes in the new
  -- file, with the new ones among them if it holds the target; the chunks below the target stay.
  pub increase_byte_positions-IsOpened :
      (c : Tree) (target : ℕ)
      → ArePlaced target first last (length b) c
      → IsOpened target first last gap b c
          (increase_byte_positions_except_target_children c target first (length gap))
  unfolding increase_byte_positions_except_target_children increase_fields IsOpened
  increase_byte_positions-IsOpened null target h = refl
  increase_byte_positions-IsOpened (chunk f next children) target h = (
    refl,
    increase-part_of f h.0,
    increase_byte_positions-IsOpened next target h.1,
    elim (Bool-cases (f.address == target)) [
      | inl e ↦ rw e refl
      | inr e ↦
          let below : ArePlaced target first last (length b) children =
            subst
              (λ (at : Bool).
                if at then Unit {0} else ArePlaced target first last (length b) children)
              e h.2 in
          rw e (increase_byte_positions-IsOpened children target below)
    ],
  )
