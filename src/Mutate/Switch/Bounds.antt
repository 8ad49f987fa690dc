-- ===== src/Mutate/Switch/Bounds.antt =====
-- What the stacked tweaks of the havoc stage leave: a buffer that is not empty and not too large.
use nfuzzer.Base.{
  ℕ, zero, suc, ◌+◌, ◌-◌, ◌≤◌, ◌<◌, ◌≡◌, refl, arith, Bool, true, false, not, ltb, leb, ◌&&◌, ◌||◌,
  ◌==◌, List, length, if◌then◌else◌, Bool-cases, inl, inr,
}
use nfuzzer.Havoc.Blocks.{blk_xl}
use nfuzzer.Stages.Extras.{Extra, len_of, max_file}
use nfuzzer.Mutate.Draw.{
  Source, Draw, give, Ensures, Ensures-give, Ensures-bind, Ensures-elim, Ensures-weaken, draw-lt,
}
use nfuzzer.Mutate.Memory.{write-length, index-inside}
use nfuzzer.Mutate.Sizes.{
  flip_random_bit-length, interesting_byte-length, interesting_word16-length,
  interesting_word32-length, subtract_from_byte-length, add_to_byte-length,
  subtract_from_word-length, add_to_word-length, subtract_from_dword-length, add_to_dword-length,
  random_byte-length, delete_block-length, insert_block-length, overwrite_block-length,
  splice_in-length, not_below,
}
use nfuzzer.Mutate.Switch.{
  Setting, Tweaked, Next, on, exited, is_empty, resized, higher_order, prefer_auto, draw_extra,
  put_extra, overwrite_extra, grow_by_extra, insert_extra, delete_case, insert_case, overwrite_case,
  optional_cases, block_cases, word_cases, havoc_case, havoc_round, havoc_rounds, mutate,
}

-- A file of 1 to `bound` bytes.
abbrev pub IsFile : ℕ → List ℕ → Type 0
IsFile bound b = (1 ≤ length b) × (length b ≤ bound)

-- The process ends only in smart mode, for an entry with a chunk tree, outside splicing.
abbrev pub IsFine : Setting → ℕ → Next Tweaked → Type 0
IsFine s bound (on t) = IsFile bound t.out_buf
IsFine s bound exited = (s.smart_mode ≡ true) × (s.splicing ≡ false) × (s.has_chunk ≡ true)

nonempty : {A : Type 0} (xs : List A) → is_empty xs ≡ false → 0 < length xs
nonempty xs h = ground arith

module _ {G : Type 0} (src : Source G) (s : Setting) (bound : ℕ) (started : 0 < src.queue_cycle)
    (roomy : max_file ≤ bound) where
  abbrev Fine : Draw G (Next Tweaked) → Type 0
  Fine = Ensures (IsFine s bound)

  -- A tweak that keeps the size.
  same_size :
      (t : Tweaked) (m : Draw G (List ℕ))
      → IsFile bound t.out_buf
      → Ensures (λ b. length b ≡ length t.out_buf) m
      → Fine (resized false t m)
  same_size t m f e = Ensures-bind e λ b same. Ensures-give _ (omega (arith, f), omega (arith, f))

  -- A tweak with a size of its own.
  new_size :
      (t : Tweaked) (m : Draw G (List ℕ)) → Ensures (IsFile bound) m → Fine (resized true t m)
  new_size t m e = Ensures-bind e λ b f. Ensures-give _ f

  drawn_extra :
      (tokens : List Extra) → 0 < length tokens → Ensures (λ e. Unit {0}) (draw_extra src s tokens)
  unfolding draw_extra
  drawn_extra tokens h =
      Ensures-bind (draw-lt src (length tokens) h)
        λ k known. Ensures-weaken (λ _ _. tt) (index-inside tokens k known)

  -- The list that is chosen is not empty if one of the two is not.
  chosen :
      Ensures
        (λ auto.
          is_empty (if auto then s.a_extras else s.extras) ≡ true
          → is_empty s.extras && is_empty s.a_extras ≡ true)
        (prefer_auto src s)
  unfolding prefer_auto
  chosen =
      Ensures-elim (is_empty s.extras) (λ none. Ensures-give true λ h. ground (arith, none, h))
        λ some.
          Ensures-elim (is_empty s.a_extras)
            (λ none. Ensures-give false λ h. ground (arith, some, h))
            λ both.
              Ensures-bind (draw-lt src 2 (omega arith))
                λ coin _. Ensures-give _ λ h. ground (arith, some, both, h)

  put_extra-length :
      (buf : List ℕ) (e : Extra) → Ensures (λ b. length b ≡ length buf) (put_extra src s buf e)
  unfolding put_extra
  put_extra-length buf e =
      Ensures-elim (ltb (length buf) (len_of e)) (λ _. Ensures-give buf refl)
        λ fits.
          let room = not_below (length buf) (len_of e) fits in
          Ensures-bind (draw-lt src (length buf - len_of e + 1) (omega arith))
            λ at inside. write-length buf at e.bytes (omega arith)

  overwrite_extra-length :
      (buf : List ℕ) → Ensures (λ b. length b ≡ length buf) (overwrite_extra src s buf)
  unfolding overwrite_extra
  overwrite_extra-length buf = Ensures-bind chosen λ auto _.
      Ensures-elim (is_empty (if auto then s.a_extras else s.extras)) (λ _. Ensures-give buf refl)
        λ some. Ensures-bind (drawn_extra _ (nonempty _ some)) λ e _. put_extra-length buf e

  grow_by_extra-IsFine :
      (t : Tweaked) (at : ℕ) (e : Extra)
      → IsFile bound t.out_buf
      → at ≤ length t.out_buf
      → Fine (grow_by_extra src s t at e)
  unfolding grow_by_extra
  grow_by_extra-IsFine t at e f inside =
      Ensures-elim (leb max_file (length t.out_buf + len_of e)) (λ _. Ensures-give _ f)
        λ room. new_size t _ (
          Ensures-weaken (λ b grown. (omega (arith, f), ground (arith, room, roomy, grown)))
            (splice_in-length src t.out_buf at e.bytes inside))

  insert_extra-IsFine :
      (t : Tweaked)
      → IsFile bound t.out_buf
      → is_empty s.extras && is_empty s.a_extras ≡ false
      → Fine (insert_extra src s t)
  unfolding insert_extra
  insert_extra-IsFine t f tokens =
      Ensures-bind (draw-lt src (length t.out_buf + 1) (omega arith)) λ at inside.
        Ensures-bind chosen λ auto some.
          Ensures-bind (drawn_extra _ (filled auto some))
            λ e _. grow_by_extra-IsFine t at e f (omega arith)
    where
      filled :
          (auto : Bool)
          → (is_empty (if auto then s.a_extras else s.extras) ≡ true
              → is_empty s.extras && is_empty s.a_extras ≡ true)
          → 0 < length (if auto then s.a_extras else s.extras)
      filled auto some = elim (Bool-cases (is_empty (if auto then s.a_extras else s.extras))) [
        | inl none ↦ absurd (ground (arith, some none, tokens))
        | inr full ↦ nonempty _ full
      ]

  delete_case-IsFine : (t : Tweaked) → IsFile bound t.out_buf → Fine (delete_case src s t)
  unfolding delete_case
  delete_case-IsFine t f =
      Ensures-elim (ltb (length t.out_buf) 2) (λ _. Ensures-give _ f)
        λ two.
          let room = not_below (length t.out_buf) 2 two in
          new_size t _ (
            Ensures-weaken (λ b less. (less.0, omega (arith, less, f)))
              (delete_block-length src t.out_buf started room))

  insert_case-IsFine : (t : Tweaked) → IsFile bound t.out_buf → Fine (insert_case src s t)
  unfolding insert_case
  insert_case-IsFine t f =
      Ensures-elim (ltb (length t.out_buf + blk_xl) max_file)
        (λ room. new_size t _ (
          Ensures-weaken (λ b more. (omega (arith, more), ground (arith, room, more, roomy)))
            (insert_block-length src t.out_buf started f.0)))
        λ _. Ensures-give _ f

  overwrite_case-IsFine : (t : Tweaked) → IsFile bound t.out_buf → Fine (overwrite_case src s t)
  unfolding overwrite_case
  overwrite_case-IsFine t f =
      Ensures-elim (ltb (length t.out_buf) 2) (λ _. Ensures-give _ f)
        λ two.
          same_size t _ f
            (overwrite_block-length src t.out_buf started (not_below (length t.out_buf) 2 two))

  higher_order-IsFine :
      (t : Tweaked)
      → IsFile bound t.out_buf
      → (s.smart_mode ≡ true) × (s.splicing ≡ false) × (s.has_chunk ≡ true)
      → Fine (higher_order {G = G} s t)
  unfolding higher_order
  higher_order-IsFine t f smart =
      elim (Bool-cases (s.smart_mutation_limit == 0 || ltb 0 s.smart_mutation_limit)) [
        | inl go ↦ rw go (Ensures-give exited smart)
        | inr stop ↦ rw stop (Ensures-give (on t) f)
      ]

  -- There is a token to insert, unless the case is 15.
  abbrev Supplied : ℕ → Type 0
  Supplied n = 0 < n → is_empty s.extras && is_empty s.a_extras ≡ false

  optional_cases-IsFine :
      (n : ℕ) (t : Tweaked) → Supplied n → IsFile bound t.out_buf → Fine (optional_cases src s n t)
  unfolding optional_cases
  optional_cases-IsFine zero t tokens f =
      Ensures-elim _ (λ _. same_size t _ f (overwrite_extra-length t.out_buf))
        λ smart.
          higher_order-IsFine t f
            (ground (arith, smart), ground (arith, smart), ground (arith, smart))
  optional_cases-IsFine (suc zero) t tokens f =
      Ensures-elim _ (λ _. insert_extra-IsFine t f (tokens (omega arith)))
        λ _. same_size t _ f (overwrite_extra-length t.out_buf)
  optional_cases-IsFine (suc (suc n)) t tokens f = insert_extra-IsFine t f (tokens (omega arith))

  block_cases-IsFine :
      (n : ℕ) (t : Tweaked)
      → Supplied (n - 4)
      → IsFile bound t.out_buf
      → Fine (block_cases src s n t)
  unfolding block_cases
  block_cases-IsFine zero t tokens f = delete_case-IsFine t f
  block_cases-IsFine (suc zero) t tokens f = delete_case-IsFine t f
  block_cases-IsFine (suc (suc zero)) t tokens f = insert_case-IsFine t f
  block_cases-IsFine (suc (suc (suc zero))) t tokens f = overwrite_case-IsFine t f
  block_cases-IsFine (suc (suc (suc (suc n)))) t tokens f =
      optional_cases-IsFine n t (λ h. tokens (omega arith)) f

  word_cases-IsFine :
      (n : ℕ) (t : Tweaked)
      → Supplied (n - 9)
      → IsFile bound t.out_buf
      → Fine (word_cases src s n t)
  unfolding word_cases
  word_cases-IsFine zero t tokens f = same_size t _ f (subtract_from_word-length src t.out_buf)
  word_cases-IsFine (suc zero) t tokens f = same_size t _ f (add_to_word-length src t.out_buf)
  word_cases-IsFine (suc (suc zero)) t tokens f =
      same_size t _ f (subtract_from_dword-length src t.out_buf)
  word_cases-IsFine (suc (suc (suc zero))) t tokens f =
      same_size t _ f (add_to_dword-length src t.out_buf)
  word_cases-IsFine (suc (suc (suc (suc zero)))) t tokens f =
      same_size t _ f (random_byte-length src t.out_buf f.0)
  word_cases-IsFine (suc (suc (suc (suc (suc n))))) t tokens f =
      block_cases-IsFine n t (λ h. tokens (omega arith)) f

  havoc_case-IsFine :
      (n : ℕ) (t : Tweaked)
      → Supplied (n - 15)
      → IsFile bound t.out_buf
      → Fine (havoc_case src s n t)
  unfolding havoc_case
  havoc_case-IsFine zero t tokens f = same_size t _ f (flip_random_bit-length src t.out_buf f.0)
  havoc_case-IsFine (suc zero) t tokens f =
      same_size t _ f (interesting_byte-length src t.out_buf f.0)
  havoc_case-IsFine (suc (suc zero)) t tokens f =
      same_size t _ f (interesting_word16-length src t.out_buf)
  havoc_case-IsFine (suc (suc (suc zero))) t tokens f =
      same_size t _ f (interesting_word32-length src t.out_buf)
  havoc_case-IsFine (suc (suc (suc (suc zero)))) t tokens f =
      same_size t _ f (subtract_from_byte-length src t.out_buf f.0)
  havoc_case-IsFine (suc (suc (suc (suc (suc zero))))) t tokens f =
      same_size t _ f (add_to_byte-length src t.out_buf f.0)
  havoc_case-IsFine (suc (suc (suc (suc (suc (suc n)))))) t tokens f =
      word_cases-IsFine n t (λ h. tokens (omega arith)) f

  havoc_round-IsFine : (t : Tweaked) → IsFile bound t.out_buf → Fine (havoc_round src s t)
  unfolding havoc_round
  havoc_round-IsFine t f =
      Ensures-bind (draw-lt src _ (ground arith))
        λ c drawn. havoc_case-IsFine c t (λ h. ground (arith, h, drawn)) f

  havoc_rounds-IsFine :
      (n : ℕ) (t : Tweaked) → IsFile bound t.out_buf → Fine (havoc_rounds src s n t)
  unfolding havoc_rounds
  havoc_rounds-IsFine zero t f = Ensures-give _ f
  havoc_rounds-IsFine (suc n) t f =
      Ensures-bind (havoc_round-IsFine t f) (further (havoc_rounds-IsFine n))
    where
      further :
          ((t' : Tweaked) → IsFile bound t'.out_buf → Fine (havoc_rounds src s n t'))
          → (next : Next Tweaked) → IsFine s bound next
          → Fine (elim next [ exited ↦ give exited | on t' ↦ havoc_rounds src s n t' ])
      further rest (on t') fine = rest t' fine
      further rest exited fine = Ensures-give exited fine

  -- The tweaks of one run of the havoc stage, on a file of 1 to `bound` bytes, `bound` being
  -- MAX_FILE or more, in a queue cycle above 0: whatever is drawn, no tweak accesses memory outside
  -- a buffer or divides by zero. Either the process exits, which it does only in smart mode, for an
  -- entry with a chunk tree, outside splicing, or a file of 1 to `bound` bytes is left. What
  -- splice_chunk() does before the exit is left out.
  pub mutate-IsFine :
      (buf : List ℕ) → IsFile bound buf → Ensures (IsFine s bound) (mutate src s buf)
  unfolding mutate
  mutate-IsFine buf f = Ensures-bind (draw-lt src 7 (omega arith)) λ r _.
      Ensures-elim (s.smart_mode && not s.stacking_mutation_mode && not s.splicing && s.has_chunk)
        (λ smart.
          higher_order-IsFine _ f
            (ground (arith, smart), ground (arith, smart), ground (arith, smart)))
        λ _. havoc_rounds-IsFine _ _ f
