-- ===== src/Stages/Extras/Restore.antt =====
-- The dictionary stages leave the buffer as it was. For the tokens written over it this rests on
-- their order: the last token written at an offset is the longest.
use nfuzzer.Base.{
  ℕ, zero, suc, ◌+◌, ◌-◌, ◌≤◌, ◌<◌, ◌≡◌, refl, sym, ap, ◌∙◌, arith, Bool, false, ◌||◌, ltb, List,
  [], ◌∷◌, ◌++◌, length, take, length-take, drop,
}
use nfuzzer.Stages.Words.{put, bytes_at, put-put, put-bytes_at, length-put, length-bytes_at}
use nfuzzer.Stages.Tries.{Stage, Going, >>=-Going, branch-Going}
use nfuzzer.Stages.Tries.Restore.{run_target-Going}
use nfuzzer.Stages.Extras.{
  Extra, len_of, Over, is_useless, over_extra, over_extras, over_offsets, user_over, auto_over,
  insert_extra, insert_extras, insert_offsets, user_insert, use_auto_extras, max_file,
}

-- Tokens in the order of their lengths, none shorter than `low`.
abbrev pub AreSortedFrom : ℕ → List Extra → Type 0
AreSortedFrom low [] = Unit
AreSortedFrom low (e ∷ es) = (low ≤ len_of e) × AreSortedFrom (len_of e) es

wider :
    (i l m : ℕ) (in_buf out : List ℕ)
    → l ≤ m
    → put i (bytes_at i l in_buf) out ≡ in_buf
    → put i (bytes_at i m in_buf) out ≡ in_buf
wider i l m in_buf out h e =
    sym (
      put-put i (bytes_at i m in_buf) (bytes_at i l in_buf) out
        (omega (arith, length-take l (drop i in_buf), length-take m (drop i in_buf))))
    ∙ ap (λ (b : List ℕ). put i (bytes_at i m in_buf) b) e
    ∙ put-bytes_at i m in_buf

has_room :
    (eff_map : List ℕ) (i : ℕ) (e : Extra) (buf : List ℕ) (b : Bool)
    → (b || is_useless eff_map i e buf) ≡ false
    → len_of e ≤ length buf - i
unfolding is_useless
has_room eff_map i e buf b h = ground arith

module _ {S : Type 0} (fuzz_stuff : S → List ℕ → S × Bool) (in_buf : List ℕ) where
  -- Copying back `last_len` bytes gives the buffer that the stage started from.
  abbrev IsClobbered : ℕ → Over S → Type 0
  IsClobbered i o =
      (put i (bytes_at i o.last_len in_buf) o.stage.out_buf ≡ in_buf)
      × (length o.stage.out_buf ≡ length in_buf)

  module _ (chance : S → S × Bool) (eff_map : List ℕ) (i : ℕ) where
    over_extra-IsClobbered :
        (e : Extra) (o : Over S)
        → i < length in_buf
        → o.last_len ≤ len_of e
        → IsClobbered i o
        → Going
            (λ (o' : Over S). IsClobbered i o' × (o'.last_len ≤ len_of e))
            (over_extra fuzz_stuff chance eff_map i e o)
    unfolding over_extra
    over_extra-IsClobbered e o inside low h =
        let out = (chance o.stage.world).1 || is_useless eff_map i e o.stage.out_buf in
        branch-Going _ out _ _ (λ useless. (h, low))
          (λ useful.
            >>=-Going (λ (t : Stage S). t.out_buf ≡ put i e.bytes o.stage.out_buf) _ _ _
              (run_target-Going fuzz_stuff _
                (record (o.stage) {
                  world = (chance o.stage.world).0;
                  out_buf = put i e.bytes o.stage.out_buf;
                })
                (λ s. refl))
              (λ t same.
                let fits : i + len_of e ≤ length in_buf =
                  omega (arith, h.1, has_room eff_map i e o.stage.out_buf _ useful) in
                let width : length (bytes_at i (len_of e) in_buf) ≡ len_of e =
                  length-bytes_at i (len_of e) in_buf fits in
                (
                  (
                    ap (put i (bytes_at i (len_of e) in_buf)) same
                        ∙ put-put i (bytes_at i (len_of e) in_buf) e.bytes o.stage.out_buf
                            (omega arith)
                        ∙ wider i o.last_len (len_of e) in_buf o.stage.out_buf low h.0,
                    ap length same ∙ length-put i e.bytes o.stage.out_buf ∙ h.1,
                  ),
                  omega arith,
                )))

    over_extras-IsClobbered :
        (es : List Extra) (o : Over S)
        → i < length in_buf
        → AreSortedFrom o.last_len es
        → IsClobbered i o
        → Going (IsClobbered i) (over_extras fuzz_stuff chance eff_map i es o)
    unfolding over_extras
    over_extras-IsClobbered [] o inside sorted h = h
    over_extras-IsClobbered (e ∷ es) o inside sorted h =
        >>=-Going (λ (o' : Over S). IsClobbered i o' × (o'.last_len ≤ len_of e)) (IsClobbered i)
          (over_extra fuzz_stuff chance eff_map i e o) _
          (over_extra-IsClobbered e o inside sorted.0 h)
          (λ o' k.
            over_extras-IsClobbered es o' inside (lower es o'.last_len (len_of e) k.1 sorted.1) k.0)
      where
        lower : (xs : List Extra) (a b : ℕ) → a ≤ b → AreSortedFrom b xs → AreSortedFrom a xs
        lower [] a b p q = tt
        lower (x ∷ xs) a b p q = (omega (arith, q.0), q.1)

  over_offsets-out_buf :
      (chance : S → S × Bool) (eff_map : List ℕ) (extras : List Extra) (left i : ℕ) (t : Stage S)
      → left + i ≤ length in_buf
      → AreSortedFrom 0 extras
      → t.out_buf ≡ in_buf
      → Going
          (λ (t' : Stage S). t'.out_buf ≡ in_buf)
          (over_offsets fuzz_stuff chance eff_map extras in_buf left i t)
  unfolding over_offsets
  over_offsets-out_buf chance eff_map extras zero i t h sorted e = e
  over_offsets-out_buf chance eff_map extras (suc left) i t h sorted e =
      >>=-Going (IsClobbered i) _ _ _
        (over_extras-IsClobbered chance eff_map i extras (record { stage = t; last_len = 0 })
          (omega arith) sorted (ap (put i []) e ∙ put-bytes_at i 0 in_buf, ap length e))
        (λ o k.
          over_offsets-out_buf chance eff_map extras left (i + 1)
            (record (o.stage) { out_buf = put i (bytes_at i o.last_len in_buf) o.stage.out_buf })
            (omega arith) sorted k.0)

  insert_extras-out_buf :
      (head tail : List ℕ) (es : List Extra) (t : Stage S)
      → t.out_buf ≡ in_buf
      → Going (λ (t' : Stage S). t'.out_buf ≡ in_buf) (insert_extras fuzz_stuff head tail es t)
  unfolding insert_extras insert_extra
  insert_extras-out_buf head tail [] t e = e
  insert_extras-out_buf head tail (x ∷ es) t e =
      >>=-Going (λ (t' : Stage S). t'.out_buf ≡ in_buf) _ _ _
        (branch-Going _ (ltb max_file (length t.out_buf + len_of x)) _ _ (λ large. e)
          (λ fits.
            branch-Going _ (fuzz_stuff t.world (head ++ (x.bytes ++ tail))).1 _ _ (λ bail. tt)
              (λ go. e)))
        (λ t' e'. insert_extras-out_buf head tail es t' e')

  insert_offsets-out_buf :
      (extras : List Extra) (head tail : List ℕ) (t : Stage S)
      → t.out_buf ≡ in_buf
      → Going (λ (t' : Stage S). t'.out_buf ≡ in_buf) (insert_offsets fuzz_stuff extras head tail t)
  unfolding insert_offsets
  insert_offsets-out_buf extras head [] t e = insert_extras-out_buf head [] extras t e
  insert_offsets-out_buf extras head (x ∷ tail) t e =
      >>=-Going (λ (t' : Stage S). t'.out_buf ≡ in_buf) _ _ _
        (insert_extras-out_buf head (x ∷ tail) extras t e)
        (λ t' e'. insert_offsets-out_buf extras (head ++ (x ∷ [])) tail t' e')

  -- Tokens that are sorted by size, written over the buffer at every offset, leave it as it was.
  pub user_over-out_buf :
      (ur : S → ℕ → S × ℕ) (eff_map : List ℕ) (extras : List Extra) (s : S)
      → AreSortedFrom 0 extras
      → Going
          (λ (t : Stage S). t.out_buf ≡ in_buf)
          (user_over fuzz_stuff ur eff_map extras in_buf s)
  unfolding user_over
  user_over-out_buf ur eff_map extras s sorted =
      over_offsets-out_buf _ eff_map extras (length in_buf) 0 _ (omega arith) sorted refl

  pub auto_over-out_buf :
      (eff_map : List ℕ) (a_extras : List Extra) (s : S)
      → AreSortedFrom 0 (take use_auto_extras a_extras)
      → Going (λ (t : Stage S). t.out_buf ≡ in_buf) (auto_over fuzz_stuff eff_map a_extras in_buf s)
  unfolding auto_over
  auto_over-out_buf eff_map a_extras s sorted =
      over_offsets-out_buf _ eff_map (take use_auto_extras a_extras) (length in_buf) 0 _
        (omega arith) sorted refl

  pub user_insert-out_buf :
      (extras : List Extra) (s : S)
      → Going (λ (t : Stage S). t.out_buf ≡ in_buf) (user_insert fuzz_stuff extras in_buf s)
  unfolding user_insert
  user_insert-out_buf extras s = insert_offsets-out_buf extras [] in_buf _ refl
