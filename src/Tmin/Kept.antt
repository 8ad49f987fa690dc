-- ===== src/Tmin/Kept.antt =====
-- The minimizer ends, and keeps the verdict of the target.
use nfuzzer.Base.{
  ℕ, zero, suc, ◌+◌, ◌-◌, ◌*◌, ◌/◌, ◌^◌, ◌≤◌, ◌<◌, ◌≡◌, ◌≢◌, refl, ap, ◌∙◌, arith, Bool, true,
  false, not, ltb, ◌&&◌, ◌||◌, ◌==◌, if◌then◌else◌, List, ◌++◌, length, get_or, set, take, drop,
  replicate, Option, none, some, Bool-cases, inl, inr, ltb→lt, length-set, [], ◌∷◌, subst, sym,
}
use nfuzzer.Havoc.Blocks.{next_p2_lem}
use nfuzzer.Stages.Words.{put, bytes_at, length-put}
use nfuzzer.Tmin.Verdict.{Observed, Mode, cannot_execute, verdict}
use nfuzzer.Tmin.Weights.{
  weight, weight-le, weight-cut, length-cut, weight-replace_symbol, length-replace_symbol,
  occurrences-replace_symbol, weight-set,
}
use nfuzzer.Tmin.{
  filler, Minimizing, Progress, going, written, aborted, unfinished, ◌>>=◌, Attempt, accepted,
  rejected, stopped, not_executed, is_filler, occurrences, replace_symbol, attempt, normalize_block,
  normalize_blocks, is_repeated, delete_blocks, delete_sizes, minimize_symbols, minimize_characters,
  delete_all, passes, minimize,
}

abbrev pub flag : Bool → ℕ
flag changed = if changed then 1 else 0

set-back : (xs : List ℕ) (i v : ℕ) → set (set xs i v) i (get_or xs i 0) ≡ xs
set-back [] i v = refl
set-back (x ∷ xs) zero v = refl
set-back (x ∷ xs) (suc i) v = ap (λ t. x ∷ t) (set-back xs i v)

module _ {G : Type 0} (execute : G → List ℕ → G × Observed) (mode : Mode) (limit : ℕ) where
  -- Some run on these bytes was not stopped and had the verdict 1.
  abbrev pub IsAccepted : List ℕ → Type 0
  IsAccepted b =
      (g : G) × ((execute g b).1.stop_soon ≡ false) × (verdict mode (execute g b).1 ≡ true)

  -- What may be written to the output file.
  pub record IsOutput (b : List ℕ) : Type 0 where
    pub sound : IsAccepted b
    pub short : length b ≤ limit

  record IsKept (w : ℕ) (t : Minimizing G) : Type 0 where
    output : IsOutput t.in_data
    light : weight t.in_data + flag t.changed_any ≤ w

  -- What holds when the minimizer goes on; if it has been stopped, it has written a good file.
  abbrev pub Result : (Minimizing G → Type 0) → Progress G → Type 0
  Result P (going t) = P t
  Result P (written t) = IsOutput t.in_data
  Result P aborted = Unit
  Result P unfinished = ⊥

  bind-Result :
      (P Q : Minimizing G → Type 0) (m : Progress G) (f : Minimizing G → Progress G)
      → Result P m
      → ((t : Minimizing G) → P t → Result Q (f t))
      → Result Q (m >>= f)
  unfolding ◌>>=◌
  bind-Result P Q (going t) f h k = k t h
  bind-Result P Q (written t) f h k = h
  bind-Result P Q aborted f h k = h
  bind-Result P Q unfinished f h k = h

  abbrev Tried : ℕ → List ℕ → Minimizing G → Attempt G → Type 0
  Tried w tmp t (accepted t') = IsKept w t' × (t'.in_data ≡ tmp)
  Tried w tmp t (rejected t') = IsKept w t' × (t'.in_data ≡ t.in_data)
  Tried w tmp t (stopped t') = IsOutput t'.in_data
  Tried w tmp t not_executed = Unit

  attempt-Tried :
      (w : ℕ) (tmp : List ℕ) (t : Minimizing G)
      → IsKept w t
      → length tmp ≤ limit
      → weight tmp + 1 ≤ w
      → Tried w tmp t (attempt execute mode tmp t)
  unfolding attempt verdict
  attempt-Tried w tmp t k short light =
      let seen = (execute t.world tmp).1 in
      elim (Bool-cases (cannot_execute seen.trace_bits)) [
        | inl failed ↦ rw failed tt
        | inr ran ↦ rw ran (elim (Bool-cases seen.stop_soon) [
          | inl stop ↦ rw stop k.output
          | inr run ↦ rw run (elim (Bool-cases (verdict mode seen)) [
            | inl good ↦ rw good (
              record {
                output = record { sound = (t.world, run, good); short = short };
                light = light;
              },
              refl,
            )
            | inr bad ↦ rw bad (record { output = k.output; light = k.light }, refl)
          ])
        ])
      ]

  -- A candidate that is tried, and what is done after it.
  tried-Result :
      (P : Minimizing G → Type 0) (w : ℕ) (tmp : List ℕ) (t : Minimizing G)
      (f r : Minimizing G → Progress G)
      → IsKept w t
      → length tmp ≤ limit
      → weight tmp + 1 ≤ w
      → ((t' : Minimizing G) → IsKept w t' → t'.in_data ≡ tmp → Result P (f t'))
      → ((t' : Minimizing G) → IsKept w t' → t'.in_data ≡ t.in_data → Result P (r t'))
      → Result P (elim (attempt execute mode tmp t) [
        | accepted t' ↦ f t'
        | rejected t' ↦ r t'
        | stopped t' ↦ written t'
        | not_executed ↦ aborted
      ])
  tried-Result P w tmp t f r k short light yes_then no_then =
      go (attempt execute mode tmp t) (attempt-Tried w tmp t k short light)
    where
      go :
          (a : Attempt G)
          → Tried w tmp t a
          → Result P (elim a [
            | accepted t' ↦ f t'
            | rejected t' ↦ r t'
            | stopped t' ↦ written t'
            | not_executed ↦ aborted
          ])
      go (accepted t') h = yes_then t' h.0 h.1
      go (rejected t') h = no_then t' h.0 h.1
      go (stopped t') h = h
      go not_executed h = h

  split-Result :
      (P : Minimizing G → Type 0) (b : Bool) (x y : Progress G)
      → (b ≡ true → Result P x)
      → (b ≡ false → Result P y)
      → Result P (elim b [ true ↦ x | false ↦ y ])
  split-Result P true x y h k = h refl
  split-Result P false x y h k = k refl

  some-Result :
      (P : Minimizing G → Type 0) (o : Option ℕ) (v : ℕ) (f : ℕ → Progress G)
      → o ≡ some v
      → Result P (f v)
      → Result P (elim o [ none ↦ unfinished | some u ↦ f u ])
  some-Result P o v f e h = rw e h

  -- The first stage keeps the length.
  normalize_block-Result :
      (set_pos use_len : ℕ) (t : Minimizing G)
      → IsKept (2 * limit + 1) t
      → Result
          (λ t'. IsKept (2 * limit + 1) t' × (length t'.in_data ≡ length t.in_data))
          (normalize_block execute mode set_pos use_len t)
  unfolding normalize_block
  normalize_block-Result set_pos use_len t k =
      let tmp = put set_pos (replicate use_len filler) t.in_data in
      let same = length-put set_pos (replicate use_len filler) t.in_data in
      let short : length tmp ≤ limit = omega (arith, same, k.output.short) in
      split-Result _ (is_filler (bytes_at set_pos use_len t.in_data)) _ _ (λ _. (k, refl))
        λ _.
          tried-Result _ _ tmp t going going k short (omega (arith, weight-le tmp, short))
            (λ t' k' e. (k', ap length e ∙ same)) (λ t' k' e. (k', ap length e))

  normalize_blocks-Result :
      (fuel set_len set_pos : ℕ) (t : Minimizing G)
      → 0 < set_len
      → length t.in_data - set_pos < fuel
      → IsKept (2 * limit + 1) t
      → Result (IsKept (2 * limit + 1)) (normalize_blocks execute mode fuel set_len set_pos t)
  unfolding normalize_blocks
  normalize_blocks-Result zero set_len set_pos t pos enough k = absurd (omega arith)
  normalize_blocks-Result (suc fuel) set_len set_pos t pos enough k =
      split-Result _ (ltb set_pos (length t.in_data)) _ _
        (λ more. bind-Result _ _ _ _ (normalize_block-Result set_pos _ t k) λ t' h.
          normalize_blocks-Result fuel set_len (set_pos + set_len) t' pos
            (omega (arith, h.1, enough, ltb→lt set_pos (length t.in_data) more)) h.0)
        λ _. k

  delete_blocks-Result :
      (w fuel del_len del_pos : ℕ) (prev_del : Bool) (t : Minimizing G)
      → 0 < del_len
      → length t.in_data - del_pos < fuel
      → IsKept w t
      → Result (IsKept w) (delete_blocks execute mode fuel del_len del_pos prev_del t)
  unfolding delete_blocks
  delete_blocks-Result w zero del_len del_pos prev_del t pos enough k = absurd (omega arith)
  delete_blocks-Result w (suc fuel) del_len del_pos prev_del t pos enough k =
      split-Result _ (ltb del_pos (length t.in_data)) _ _
        (λ more.
          let inside = ltb→lt del_pos (length t.in_data) more in
          let tmp = take del_pos t.in_data ++ drop (del_pos + del_len) t.in_data in
          let shorter = length-cut del_pos (del_pos + del_len) t.in_data (omega arith) inside in
          let lighter = weight-cut del_pos (del_pos + del_len) t.in_data (omega arith) inside in
          split-Result _ (is_repeated execute mode del_len del_pos prev_del t.in_data) _ _
            (λ _.
              delete_blocks-Result w fuel del_len (del_pos + del_len) prev_del t pos (omega arith)
                k)
            λ _.
              tried-Result _ w tmp t _ _ k (omega (arith, shorter, k.output.short))
                (omega (arith, lighter, k.light))
                (λ t' k' e.
                  delete_blocks-Result w fuel del_len del_pos true t' pos
                    (omega (arith, ap length e, shorter)) k')
                (λ t' k' e.
                  delete_blocks-Result w fuel del_len (del_pos + del_len) false t' pos
                    (omega (arith, ap length e)) k'))
        λ _. k

  delete_sizes-Result :
      (w fuel del_len : ℕ) (t : Minimizing G)
      → del_len < fuel
      → IsKept w t
      → Result (IsKept w) (delete_sizes execute mode fuel del_len t)
  unfolding delete_sizes
  delete_sizes-Result w zero del_len t enough k = absurd (omega arith)
  delete_sizes-Result w (suc fuel) del_len t enough k =
      let size = if del_len == 0 then 1 else del_len in
      bind-Result _ _ _ _
        (delete_blocks-Result w (length t.in_data + 1) size 0 true t (ground arith) (omega arith) k)
        λ t' k'.
          split-Result _ (ltb 1 size && ltb 0 (length t'.in_data)) _ _
            (λ more. delete_sizes-Result w fuel (size / 2) t' (ground (arith, more, enough)) k')
            λ _. k'

  -- The symbols that are still to come occur as often as they were counted.
  minimize_symbols-Result :
      (w left i : ℕ) (counted : List ℕ) (t : Minimizing G)
      → ((k : ℕ) → i ≤ k → k ≢ filler → occurrences k t.in_data ≡ occurrences k counted)
      → IsKept w t
      → Result (IsKept w) (minimize_symbols execute mode left i counted t)
  unfolding minimize_symbols
  minimize_symbols-Result w zero i counted t same k = k
  minimize_symbols-Result w (suc left) i counted t same k =
      split-Result _ (i == filler || occurrences i counted == 0) _ _
        (λ _.
          minimize_symbols-Result w left (i + 1) counted t (λ j above f. same j (omega arith) f) k)
        λ try.
          let other : i ≢ filler = λ e. ground (arith, try, e) in
          let found : 0 < occurrences i t.in_data =
            ground (arith, try, same i (omega arith) other) in
          let lighter = weight-replace_symbol i t.in_data other found in
          tried-Result _ w (replace_symbol i t.in_data) t _ _ k
            (omega (arith, length-replace_symbol i t.in_data, k.output.short))
            (omega (arith, lighter, k.light))
            (λ t' k' e.
              minimize_symbols-Result w left (i + 1) counted t'
                (λ j above f.
                  ap (occurrences j) e
                  ∙ occurrences-replace_symbol j i t.in_data (λ q. absurd (omega (arith, q))) f
                  ∙ same j (omega arith) f)
                k')
            (λ t' k' e.
              minimize_symbols-Result w left (i + 1) counted t'
                (λ j above f. ap (occurrences j) e ∙ same j (omega arith) f) k')

  -- A state with an equal `in_data`.
  subst-IsKept :
      (w : ℕ) (t : Minimizing G) (b : List ℕ)
      → t.in_data ≡ b
      → IsKept w t
      → IsKept w (record t { in_data = b })
  subst-IsKept w t b e k = subst (λ (x : List ℕ). IsKept w (record t { in_data = x })) e k

  minimize_characters-Result :
      (w left i : ℕ) (tmp_buf : List ℕ) (t : Minimizing G)
      → tmp_buf ≡ t.in_data
      → i + left ≡ length tmp_buf
      → IsKept w t
      → Result (IsKept w) (minimize_characters execute mode left i tmp_buf t)
  unfolding minimize_characters
  minimize_characters-Result w zero i tmp_buf t same all k = k
  minimize_characters-Result w (suc left) i tmp_buf t same all k =
      let orig = get_or tmp_buf i 0 in
      let tried = set tmp_buf i filler in
      split-Result _ (orig == filler) _ _
        (λ _. minimize_characters-Result w left (i + 1) tmp_buf t same (omega arith) k)
        λ other.
          let lighter = weight-set tmp_buf i (omega arith) (λ e. ground (arith, other, e)) in
          let size = length-set tmp_buf i filler in
          let sizes = ap length same in
          let weights = ap weight same in
          let back : set tried i orig ≡ tmp_buf = set-back tmp_buf i filler in
          tried-Result _ w tried t _ _ k (omega (arith, size, sizes, k.output.short))
            (omega (arith, lighter, weights, k.light))
            (λ t' k' e.
              let now : tried ≡ set t.in_data i filler = ap (λ b. set b i filler) same in
              minimize_characters-Result w left (i + 1) tried _ now (omega (arith, size))
                (subst-IsKept w t' (set t.in_data i filler) (e ∙ now) k'))
            (λ t' k' e.
              minimize_characters-Result w left (i + 1) (set tried i orig) t' (back ∙ same ∙ sym e)
                (omega (arith, ap length back)) k')

  module _ (small : limit ≤ 2 ^ 31) where
    delete_all-Result :
        (w : ℕ) (t : Minimizing G) → IsKept w t → Result (IsKept w) (delete_all execute mode t)
    unfolding delete_all
    delete_all-Result w t k =
        let p = next_p2_lem (length t.in_data / 16) (omega (arith, k.output.short)) in
        some-Result _ _ _ _ p.1 (delete_sizes-Result w _ _ t (omega arith) k)

    passes-Result :
        (fuel cur_pass : ℕ) (t : Minimizing G)
        → weight t.in_data < fuel
        → IsOutput t.in_data
        → Result (λ t'. IsOutput t'.in_data) (passes execute mode fuel cur_pass t)
    unfolding passes
    passes-Result zero cur_pass t enough out = absurd (omega arith)
    passes-Result (suc fuel) cur_pass t enough out =
        let w = weight t.in_data in
        let start : IsKept w (record t { changed_any = false }) = record {
          output = out;
          light = omega arith;
        } in
        bind-Result (IsKept w) _ _ _ (delete_all-Result w _ start) λ deleted k.
          split-Result _ (ltb 1 cur_pass && not deleted.changed_any) _ _ (λ _. k.output)
            λ _.
              bind-Result (IsKept w) _ _ _
                (minimize_symbols-Result w 256 0 deleted.in_data deleted (λ _ _ _. refl) k)
                λ fewer k'.
                  bind-Result (IsKept w) _ _ _
                    (minimize_characters-Result w (length fewer.in_data) 0 fewer.in_data fewer refl
                      (omega arith) k')
                    λ t' last.
                      split-Result _ t'.changed_any _ _
                        (λ changed.
                          passes-Result fuel (cur_pass + 1) t'
                            (omega (arith, enough, last.light, ap flag changed)) last.output)
                        λ _. last.output

    pub minimize-Result :
        (in_data : List ℕ) (g : G)
        → length in_data ≡ limit
        → IsOutput in_data
        → Result (λ t'. IsOutput t'.in_data) (minimize execute mode in_data g)
    unfolding minimize
    minimize-Result in_data g whole out =
        let p = next_p2_lem (length in_data / 128) (omega (arith, out.short)) in
        some-Result _ _ _ _ p.1 (
          bind-Result (IsKept (2 * limit + 1)) _ _ _
            (normalize_blocks-Result _ _ 0 _ (omega arith) (omega arith)
              (record { output = out; light = omega (arith, weight-le in_data, out.short) }))
            λ t k.
              passes-Result (2 * length in_data + 2) 1 t
                (omega (arith, weight-le t.in_data, k.output.short, whole)) k.output)
