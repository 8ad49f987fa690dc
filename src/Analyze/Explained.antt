-- ===== src/Analyze/Explained.antt =====
-- What analyze() reports of a byte is explained by runs on its four variants.
use nfuzzer.Base.{
  ℕ, zero, suc, ◌+◌, ◌%◌, ◌/◌, ◌<◌, ◌≡◌, ◌⊎◌, inl, refl, ap, subst, sym, ◌∙◌, arith, leb,
  if◌then◌else◌, bit_xor, List, [], ◌∷◌, ◌++◌, length, get_or, set, Option, none, some,
}
use nfuzzer.Base.Bytes.{All}
use nfuzzer.Base.Xor.{bit_xor-twice}
use nfuzzer.Tmin.Verdict.{Observed}
use nfuzzer.Mutate.Draw.{Draw, give, ◌>>=◌}
use nfuzzer.Analyze.{
  Analysis, Cksums, Probe, Report, resp_minor, response, next_seq, run_target, probe_at,
  analyze_from, analyze,
}
use nfuzzer.Analyze.Classes.{
  flip_lowest, set_back, byte_at, low_bits, behavior-lt, next_seq_lem, response-EndsProcess,
  behavior-IsClass, next_seq-Turns, high_bit, EndsProcess, IsClass, Turns,
}

-- The number of bytes whose changes, or some of them, have no effect.
pub boring : List ℕ → ℕ
boring [] = 0
boring (b ∷ bs) = if leb (b % 128) resp_minor then boring bs + 1 else boring bs

abbrev pub no_cksums : Cksums
no_cksums = record { xor_ff = 0; xor_01 = 0; sub_10 = 0; add_10 = 0 }

module _ {G : Type 0} (execute : G → List ℕ → G × Observed) (a : Analysis) where
  -- The code ends, and what it returns satisfies P; or some run has ended the process.
  abbrev pub Allows : {A : Type 0} → (A → Type 0) → Option (A × G) → Type 0
  Allows P none = (g : G) × (mem : List ℕ) × EndsProcess (execute g mem).1
  Allows P (some (x, g)) = P x

  record Keeps {A : Type 0} (P : A → Type 0) (m : Draw G A) : Type 0 where
    at : (g : G) → Allows P (m g)

  Keeps-give : {A : Type 0} {P : A → Type 0} (x : A) → P x → Keeps P (give x)
  unfolding give
  Keeps-give x h = record { at = λ g. h }

  Keeps-bind :
      {A B : Type 0} {P : A → Type 0} {Q : B → Type 0} {m : Draw G A} {f : A → Draw G B}
      → Keeps P m
      → ((x : A) → P x → Keeps Q (f x))
      → Keeps Q (m >>= f)
  unfolding ◌>>=◌
  Keeps-bind {A} {B} {P} {Q} {m} {f} e k = record { at = λ g. go (m g) (e.at g) }
    where
      go :
          (r : Option (A × G))
          → Allows P r
          → Allows Q (elim r [ none ↦ none | some (x, g') ↦ f x g' ])
      go none h = h
      go (some (x, g')) h = (k x h).at g'

  -- Some run on these bytes had the response.
  abbrev pub Responds : List ℕ → ℕ → Type 0
  Responds mem cksum = (g : G) × (response a (execute g mem).1 ≡ some cksum)

  run_target-Responds : (mem : List ℕ) → Keeps (Responds mem) (run_target execute a mem)
  unfolding run_target
  run_target-Responds mem = record { at = λ g. go g (execute g mem) refl }
    where
      go :
          (g : G) (r : G × Observed)
          → execute g mem ≡ r
          → Allows
              (Responds mem)
              (elim (response a r.1) [ none ↦ none | some cksum ↦ some (cksum, r.0) ])
      go g r q = answered (response a r.1) refl
        where
          answered :
              (o : Option ℕ)
              → response a r.1 ≡ o
              → Allows (Responds mem) (elim o [ none ↦ none | some cksum ↦ some (cksum, r.0) ])
          answered none e = (
            g,
            mem,
            subst (λ (t : G × Observed). EndsProcess t.1) (sym q) (response-EndsProcess a r.1 e),
          )
          answered (some cksum) e = (g, ap (λ (t : G × Observed). response a t.1) q ∙ e)

  -- The class of a byte, and the runs that it rests on.
  pub record IsExplained (in_data : List ℕ) (i b : ℕ) : Type 0 where
    pub cksums : Cksums
    pub xor_ff : Responds (set in_data i (bit_xor (get_or in_data i 0) 0xff)) cksums.xor_ff
    pub xor_01 : Responds (set in_data i (bit_xor (get_or in_data i 0) 0x01)) cksums.xor_01
    pub sub_10 : Responds (set in_data i ((get_or in_data i 0 + 240) % 256)) cksums.sub_10
    pub add_10 : Responds (set in_data i ((get_or in_data i 0 + 16) % 256)) cksums.add_10
    pub class : IsClass a.orig_cksum cksums (b % 128)

  -- The reports of the bytes from `i` on, `prev` and `s` being the checksums and the highest bit of
  -- the byte before.
  abbrev pub AreExplained : List ℕ → ℕ → Cksums → ℕ → List ℕ → Type 0
  AreExplained in_data i prev s [] = Unit
  AreExplained in_data i prev s (b ∷ bs) =
      (e : IsExplained in_data i b) × Turns prev e.cksums s (b / 128)
      × AreExplained in_data (i + 1) e.cksums (b / 128) bs

  record IsProbed (in_data : List ℕ) (i : ℕ) (p : Probe) : Type 0 where
    same : p.in_data ≡ in_data
    xor_ff : Responds (set in_data i (bit_xor (get_or in_data i 0) 0xff)) p.cksums.xor_ff
    xor_01 : Responds (set in_data i (bit_xor (get_or in_data i 0) 0x01)) p.cksums.xor_01
    sub_10 : Responds (set in_data i ((get_or in_data i 0 + 240) % 256)) p.cksums.sub_10
    add_10 : Responds (set in_data i ((get_or in_data i 0 + 16) % 256)) p.cksums.add_10

  probe_at-IsProbed :
      (i : ℕ) (in_data : List ℕ)
      → All (λ b. b < 256) in_data
      → Keeps (IsProbed in_data i) (probe_at execute a i in_data)
  unfolding probe_at
  probe_at-IsProbed i in_data bytes =
      let x = get_or in_data i 0 in
      let small = byte_at in_data i bytes in
      let e2 = flip_lowest x in
      let back : bit_xor (bit_xor (bit_xor x 0xff) 0xfe) 0x01 ≡ x =
        ap (λ (y : ℕ). bit_xor y 0x01) e2 ∙ bit_xor-twice x 0x01 in
      let at = λ (v : ℕ). set in_data i v in
      Keeps-bind (run_target-Responds _) λ xor_ff r1.
        Keeps-bind (run_target-Responds _) λ xor_01 r2.
          Keeps-bind (run_target-Responds _) λ sub_10 r3.
            Keeps-bind (run_target-Responds _) λ add_10 r4. Keeps-give _ (record {
              same = ap at (omega (arith, back, small)) ∙ set_back in_data i;
              xor_ff = r1;
              xor_01 = subst (λ (v : ℕ). Responds (at v) xor_01) e2 r2;
              sub_10 = subst (λ (v : ℕ). Responds (at v) sub_10) (omega (arith, back, small)) r3;
              add_10 = subst (λ (v : ℕ). Responds (at v) add_10) (omega (arith, back, small)) r4;
            })

  -- What is reported of `left` bytes from `i` on.
  record IsReport (in_data : List ℕ) (left i : ℕ) (prev : Cksums) (s : ℕ) (r : Report)
      : Type 0 where
    same : r.in_data ≡ in_data
    size : length r.b_data ≡ left
    explained : AreExplained in_data i prev (s / 128) r.b_data
    bored : r.boring_len ≡ boring r.b_data

  analyze_from-IsReport :
      (left i : ℕ) (prev : Cksums) (s : ℕ) (in_data : List ℕ)
      → s ≡ 0 ⊎ s ≡ 128
      → All (λ b. b < 256) in_data
      → Keeps (IsReport in_data left i prev s) (analyze_from execute a left i prev s in_data)
  unfolding analyze_from boring
  analyze_from-IsReport zero i prev s in_data seq bytes =
      Keeps-give _ (record { same = refl; size = refl; explained = tt; bored = refl })
  analyze_from-IsReport (suc left) i prev s in_data seq bytes =
      Keeps-bind (probe_at-IsProbed i in_data bytes) λ p v.
        let s' = next_seq prev p.cksums s in
        let ok = next_seq_lem prev p.cksums s seq in
        let high = high_bit _ s' (behavior-lt a.orig_cksum p.cksums) ok in
        let low = low_bits _ s' (behavior-lt a.orig_cksum p.cksums) ok in
        Keeps-bind
          (subst
            (λ (b : List ℕ).
              Keeps (IsReport in_data left (i + 1) p.cksums s')
                (analyze_from execute a left (i + 1) p.cksums s' b))
            (sym v.same) (analyze_from-IsReport left (i + 1) p.cksums s' in_data ok bytes))
          λ rest k. Keeps-give _ (record {
            same = k.same;
            size = ap suc k.size;
            explained = (
              record {
                cksums = p.cksums;
                xor_ff = v.xor_ff;
                xor_01 = v.xor_01;
                sub_10 = v.sub_10;
                add_10 = v.add_10;
                class =
                    subst (IsClass a.orig_cksum p.cksums) (sym low)
                      (behavior-IsClass a.orig_cksum p.cksums);
              },
              subst (Turns prev p.cksums (s / 128)) (sym high) (next_seq-Turns prev p.cksums s seq),
              subst (λ (t : ℕ). AreExplained in_data (i + 1) p.cksums t rest.b_data) (sym high)
                  k.explained,
            );
            bored = rw low (rw k.bored refl);
          })

  -- The report of analyze(): `in_data` is as it was, and the classes stand before the terminator.
  pub record IsAnalyzed (in_data : List ℕ) (r : Report) : Type 0 where
    pub same : r.in_data ≡ in_data
    pub bytes : List ℕ
    pub terminated : r.b_data ≡ bytes ++ (0xff ∷ [])
    pub size : length bytes ≡ length in_data
    pub explained : AreExplained in_data 0 no_cksums 0 bytes
    pub bored : r.boring_len ≡ boring bytes

  -- For an input of bytes, whatever the runs do: if analyze() ends without a report, some run was
  -- stopped by the user or could not execute the target. If there is one, `in_data` is put back, and
  -- the class of each byte is the one for the checksums of four runs, on the input with just this
  -- byte inverted, with its lowest bit flipped, 16 lower and 16 higher: 0 if all four are the original
  -- one, 1 if only some are, 3 if none is and all four agree, 2 otherwise. Its highest bit turns, from
  -- 0, where all four differ from those of the byte before (0 for the first byte), and `boring_len`
  -- is the number of bytes of the classes 0 and 1.
  pub analyze_lem :
      (in_data : List ℕ) (g : G)
      → All (λ b. b < 256) in_data
      → Allows (IsAnalyzed in_data) (analyze execute a in_data g)
  unfolding analyze
  analyze_lem in_data g bytes =
      (Keeps-bind (analyze_from-IsReport (length in_data) 0 _ 0 in_data (inl refl) bytes) λ r k.
          Keeps-give _ (record {
            same = k.same;
            bytes = r.b_data;
            terminated = refl;
            size = k.size;
            explained = k.explained;
            bored = k.bored;
          })).at
        g
