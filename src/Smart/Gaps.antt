-- ===== src/Smart/Gaps.antt =====
-- What delete_chunk() and the resizing of intelli_havoc() do to the buffer: both touch one byte too
-- many behind the file.
use nfuzzer.Base.{
  ℕ, zero, suc, ◌+◌, ◌-◌, ◌^◌, ◌≤◌, ◌<◌, ◌≡◌, ◌⊎◌, inl, inr, refl, ap, sym, ◌∙◌, arith, true, leb,
  List, [], ◌∷◌, ◌++◌, length, take, drop, Option, none, some, length-replicate, length-take,
  length-drop, dec_lt,
}
use nfuzzer.Stages.Words.{put, bytes_at, overwrite}
use nfuzzer.Tree.{Fields, Tree, chunks}
use nfuzzer.Tree.Search.{chunk_len}
use nfuzzer.Tree.Destroy.{IsFree, search_and_destroy_chunk_lem}
use nfuzzer.Mutate.Draw.{
  Draw, give, fault, ◌>>=◌, Ensures, Holds, Ensures-give, Ensures-bind, Ensures-elim,
}
use nfuzzer.Mutate.Memory.{read, write, found, read-length, write-length}
use nfuzzer.Smart.{Subject, Changed, resize_chunk, close_gap, delete_at}

-- The code faults, whatever is drawn.
pub record Faults {G A : Type 0} (m : Draw G A) : Type 0 where
  pub at : (g : G) → m g ≡ none

Faults-bind :
    {G A B : Type 0} {P : A → Type 0} {m : Draw G A} {f : A → Draw G B}
    → Ensures P m
    → ((a : A) → P a → Faults (f a))
    → Faults (m >>= f)
unfolding ◌>>=◌
Faults-bind {G} {A} {B} {P} {m} {f} e k = record { at = λ g. go (m g) (e.at g) }
  where
    go : (r : Option (A × G)) → Holds P r → (elim r [ none ↦ none | some (a, g') ↦ f a g' ]) ≡ none
    go none h = refl
    go (some (a, g')) h = (k a h).at g'

Faults-first : {G A B : Type 0} {m : Draw G A} (f : A → Draw G B) → Faults m → Faults (m >>= f)
unfolding ◌>>=◌
Faults-first {G} {A} {B} {m} f e = record { at = λ g. ap step (e.at g) }
  where
    step : Option (A × G) → Option (B × G)
    step r = elim r [ none ↦ none | some (a, g') ↦ f a g' ]

read-Faults :
    {G : Type 0} (buf : List ℕ) (i n : ℕ) → length buf < i + n → Faults {G = G} (read buf i n)
unfolding read fault give
read-Faults buf i n h = record { at = λ g. ground (arith, h) }

write-Faults :
    {G : Type 0} (buf : List ℕ) (i : ℕ) (w : List ℕ)
    → length buf < i + length w
    → Faults {G = G} (write buf i w)
unfolding write fault give
write-Faults buf i w h = record { at = λ g. ground (arith, h) }

-- The chunk lies in the file, and the file in the buffer; 32-bit ints can measure it.
pub record IsInside (f : Fields) (t : Subject) : Type 0 where
  pub order : f.start_byte ≤ f.end_byte
  pub within : f.end_byte < t.temp_len
  pub allocated : t.temp_len ≤ length t.out_buf
  pub small : t.temp_len < 2 ^ 31

pub chunk_len-inside :
    (f : Fields) (t : Subject) → IsInside f t → chunk_len f ≡ f.end_byte + 1 - f.start_byte
unfolding chunk_len
chunk_len-inside f t v = omega arith

-- Resizing a chunk within a file of fewer than 2 ^ 31 bytes faults, whatever its new bytes are: the
-- last copy reads past the end of the old buffer, or writes one byte past the end of the new one.
pub resize_chunk-Faults :
    {G : Type 0} (f : Fields) (body : List ℕ) (t : Subject)
    → IsInside f t
    → Faults {G = G} (resize_chunk f body t)
unfolding resize_chunk
resize_chunk-Faults f body t v =
    let len = chunk_len-inside f t v in
    let zero_byte : ℕ = 0 in
    let size = length-replicate (t.temp_len + length body - chunk_len f) zero_byte in
    Faults-bind
      (read-length t.out_buf 0 f.start_byte (omega (arith, v.order, v.within, v.allocated)))
      λ before a.
        Faults-bind (write-length _ 0 before (omega (arith, a, len, size, v.order, v.within)))
          λ b1 b.
            Faults-bind
              (write-length b1 f.start_byte body (omega (arith, b, len, size, v.order, v.within)))
              λ b2 c.
                elim (dec_lt (length t.out_buf) (f.end_byte + 1 + (t.temp_len - f.end_byte))) [
                  | yes beyond ↦ Faults-first _ (read-Faults t.out_buf (f.end_byte + 1) _ beyond)
                  | no slack ↦
                      Faults-bind (read-length t.out_buf (f.end_byte + 1) _ (omega (arith, slack)))
                        λ behind d. Faults-first _ (
                          write-Faults b2 (f.start_byte + length body) behind
                            (omega (arith, b, c, d, len, size, v.order, v.within)))
                ]

take-overwrite :
    (k : ℕ) (w buf : List ℕ) → k ≤ length w → k ≤ length buf → take k (overwrite w buf) ≡ take k w
unfolding overwrite
take-overwrite zero w buf h l = refl
take-overwrite (suc k) [] buf h l = absurd (omega arith)
take-overwrite (suc k) (v ∷ w) [] h l = absurd (omega arith)
take-overwrite (suc k) (v ∷ w) (x ∷ buf) h l =
    ap (λ t. v ∷ t) (take-overwrite k w buf (omega arith) (omega arith))

take-put :
    (n to : ℕ) (w buf : List ℕ)
    → to ≤ n
    → n - to ≤ length w
    → n ≤ length buf
    → take n (put to w buf) ≡ take to buf ++ take (n - to) w
unfolding put
take-put n zero w buf o h l =
    take-overwrite n w buf (omega arith) l ∙ ap (λ (k : ℕ). take k w) (omega arith)
take-put zero (suc to) w buf o h l = absurd (omega arith)
take-put (suc n) (suc to) w [] o h l = absurd (omega arith)
take-put (suc n) (suc to) w (x ∷ buf) o h l =
    ap (λ t. x ∷ t)
      (take-put n to w buf (omega arith) (omega arith) (omega arith)
        ∙ ap (λ (k : ℕ). take to buf ++ take k w) (omega arith))

take-take : (k n : ℕ) (xs : List ℕ) → k ≤ n → take k (take n xs) ≡ take k xs
take-take zero n xs h = refl
take-take (suc k) zero xs h = absurd (omega arith)
take-take (suc k) (suc n) [] h = refl
take-take (suc k) (suc n) (x ∷ xs) h = ap (λ t. x ∷ t) (take-take k n xs (omega arith))

drop-take : (f n : ℕ) (xs : List ℕ) → f ≤ n → drop f (take n xs) ≡ take (n - f) (drop f xs)
drop-take zero n xs h = ap (λ (k : ℕ). take k xs) (omega arith)
drop-take (suc f) zero xs h = absurd (omega arith)
drop-take (suc f) (suc n) [] h = nil (suc n - suc f)
  where
    nil : (k : ℕ) → ◌≡◌ {A = List ℕ} [] (take k [])
    nil zero = refl
    nil (suc k) = refl
drop-take (suc f) (suc n) (x ∷ xs) h =
    drop-take f n xs (omega arith) ∙ ap (λ (k : ℕ). take k (drop f xs)) (omega arith)

-- With a byte to spare the gap is closed.
close_gap-content :
    {G : Type 0} (out_buf : List ℕ) (temp_len to from : ℕ)
    → to ≤ from
    → from ≤ temp_len
    → temp_len < length out_buf
    → Ensures {G = G}
        (λ b.
          take (temp_len - (from - to)) b ≡ take to out_buf ++ drop from (take temp_len out_buf))
        (close_gap out_buf temp_len to from)
unfolding close_gap read write
close_gap-content out_buf n to from h l slack =
    Ensures-bind {P = λ w. w ≡ bytes_at from (n - from + 1) out_buf}
      (Ensures-elim (leb (from + (n - from + 1)) (length out_buf)) (λ _. Ensures-give _ refl)
        (λ out. absurd (ground (arith, out, slack, l))))
      λ w e.
        let size : length w ≡ n - from + 1 =
          ap length e
          ∙ omega
              (arith, length-take (n - from + 1) (drop from out_buf), length-drop from out_buf) in
        Ensures-elim (leb (to + length w) (length out_buf))
          (λ _. Ensures-give _ (
            take-put (n - (from - to)) to w out_buf (omega arith) (omega (arith, size))
              (omega arith)
            ∙ ap (λ (v : List ℕ). take to out_buf ++ v) (rest w e)))
          (λ out. absurd (ground (arith, out, size, slack, h, l)))
  where
    rest :
        (w : List ℕ)
        → w ≡ bytes_at from (n - from + 1) out_buf
        → take (n - (from - to) - to) w ≡ drop from (take n out_buf)
    rest w e =
        ap (λ (v : List ℕ). take (n - (from - to) - to) v) e
        ∙ take-take (n - (from - to) - to) (n - from + 1) (drop from out_buf) (omega arith)
        ∙ ap (λ (k : ℕ). take k (drop from out_buf)) (omega arith)
        ∙ sym (drop-take from n out_buf l)

close_gap-Faults :
    {G : Type 0} (out_buf : List ℕ) (temp_len to from : ℕ)
    → from ≤ temp_len
    → length out_buf ≤ temp_len
    → Faults {G = G} (close_gap out_buf temp_len to from)
unfolding close_gap
close_gap-Faults out_buf temp_len to from h l =
    Faults-first _ (read-Faults out_buf from (temp_len - from + 1) (omega arith))

-- A search that ends does not fault.
found-ends :
    {G : Type 0} {target n : ℕ} {out : Option Tree}
    → (rest : Tree) × (out ≡ some rest) × IsFree target rest × (chunks rest ≤ n)
    → Ensures {G = G} (λ rest. IsFree target rest) (found out)
unfolding found give
found-ends (rest, e, free, fewer) = record { at = λ g. rw e free }

-- The file without the chunk, in a tree without it.
pub record IsDeleted (f : Fields) (t : Subject) (r : Changed) : Type 0 where
  pub changed : r.changed ≡ true
  pub shorter : r.subject.temp_len + (f.end_byte + 1 - f.start_byte) ≡ t.temp_len
  pub file :
      take r.subject.temp_len r.subject.out_buf
      ≡ take f.start_byte t.out_buf ++ drop (f.end_byte + 1) (take t.temp_len t.out_buf)
  pub gone : IsFree f.address r.subject.tree

-- Deleting a chunk that lies within a file of fewer than 2 ^ 31 bytes: if the buffer has a byte to spare behind the file, the
-- bytes of the chunk are cut out and its tree does not hold it any more; if it has none, as when the
-- file has not been shortened before, the byte behind the buffer is read.
pub delete_at_lem :
    {G : Type 0} (f : Fields) (t : Subject)
    → IsInside f t
    → (t.temp_len < length t.out_buf) × Ensures {G = G} (IsDeleted f t) (delete_at f t)
      ⊎ (t.temp_len ≡ length t.out_buf) × Faults {G = G} (delete_at f t)
unfolding delete_at
delete_at_lem {G} f t v =
    let len = chunk_len-inside f t v in
    elim (dec_lt t.temp_len (length t.out_buf)) [
      | yes slack ↦ inl (
        slack,
        Ensures-bind
            (close_gap-content t.out_buf t.temp_len f.start_byte (f.start_byte + chunk_len f)
              (omega arith) (omega (arith, len, v.order, v.within)) slack)
            λ b content.
              Ensures-bind
                (found-ends
                  (search_and_destroy_chunk_lem t.tree f.address f.start_byte (chunk_len f)))
                λ rest free. Ensures-give _ (record {
                  changed = refl;
                  shorter = omega (arith, len, v.order, v.within);
                  file =
                      ap (λ (k : ℕ). take k b) (omega (arith, len, v.order, v.within))
                      ∙ content
                      ∙ ap
                          (λ (k : ℕ).
                            take f.start_byte t.out_buf ++ drop k (take t.temp_len t.out_buf))
                          (omega (arith, len, v.order, v.within));
                  gone = free;
                }),
      )
      | no full ↦ inr (
        omega (arith, full, v.allocated),
        Faults-first _ (
            close_gap-Faults t.out_buf t.temp_len f.start_byte (f.start_byte + chunk_len f)
              (omega (arith, len, v.order, v.within)) (omega (arith, full))),
      )
    ]
