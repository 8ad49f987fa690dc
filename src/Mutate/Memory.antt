-- ===== src/Mutate/Memory.antt =====
-- Reads and writes of buffers that fault outside them, and the bytes that the random stages of
-- fuzzer/afl-fuzz.c draw from a buffer.
use nfuzzer.Base.{
  ℕ, zero, suc, ◌+◌, ◌≤◌, ◌<◌, ◌≡◌, refl, arith, true, false, leb, ◌==◌, List, [], ◌∷◌, length,
  get_elem?, Option, none, some,
}
use nfuzzer.Stages.Words.{put, bytes_at, length-put, length-bytes_at}
use nfuzzer.Mutate.Draw.{
  Source, Draw, give, fault, ◌>>=◌, draw, Ensures, Ensures-give, Ensures-bind, Ensures-elim,
  Ensures-weaken, draw-lt,
}

-- `n` bytes from `i` on.
unfoldable pub read : {G : Type 0} → List ℕ → ℕ → ℕ → Draw G (List ℕ)
read buf i n = elim (leb (i + n) (length buf)) [ true ↦ give (bytes_at i n buf) | false ↦ fault ]

unfoldable pub write : {G : Type 0} → List ℕ → ℕ → List ℕ → Draw G (List ℕ)
write buf i w = elim (leb (i + length w) (length buf)) [ true ↦ give (put i w buf) | false ↦ fault ]

unfoldable pub found : {G A : Type 0} → Option A → Draw G A
found none = fault
found (some a) = give a

-- An element of an array.
unfoldable pub index : {G A : Type 0} → List A → ℕ → Draw G A
index xs i = found (get_elem? xs i)

-- `UR(2) ? UR(256) : buf[UR(len)]`
unfoldable pub fill_byte : {G : Type 0} → Source G → List ℕ → Draw G ℕ
fill_byte src buf = do
  coin ← draw src 2
  elim (coin == 0) [ true ↦ do pos ← draw src (length buf); index buf pos | false ↦ draw src 256 ]

module _ {G : Type 0} where
  pub read-length :
      (buf : List ℕ) (i n : ℕ)
      → i + n ≤ length buf
      → Ensures {G = G} (λ w. length w ≡ n) (read buf i n)
  unfolding read
  read-length buf i n h =
      Ensures-elim (leb (i + n) (length buf)) (λ _. Ensures-give _ (length-bytes_at i n buf h))
        (λ out. absurd (ground (arith, out)))

  pub write-length :
      (buf : List ℕ) (i : ℕ) (w : List ℕ)
      → i + length w ≤ length buf
      → Ensures {G = G} (λ b. length b ≡ length buf) (write buf i w)
  unfolding write
  write-length buf i w h =
      Ensures-elim (leb (i + length w) (length buf)) (λ _. Ensures-give _ (length-put i w buf))
        (λ out. absurd (ground (arith, out)))

  pub index-inside :
      {A : Type 0} (xs : List A) (i : ℕ)
      → i < length xs
      → Ensures {G = G} (λ a. get_elem? xs i ≡ some a) (index xs i)
  unfolding index found
  index-inside [] i h = absurd (omega arith)
  index-inside (x ∷ xs) zero h = Ensures-give x refl
  index-inside (x ∷ xs) (suc i) h = index-inside xs i (omega arith)

  -- A byte is drawn without a fault if the buffer is not empty.
  pub fill_byte-inside :
      (src : Source G) (buf : List ℕ) → 0 < length buf → Ensures (λ _. Unit {0}) (fill_byte src buf)
  unfolding fill_byte
  fill_byte-inside src buf h = Ensures-bind (draw-lt src 2 (omega arith)) λ coin _.
      Ensures-elim (coin == 0)
        (λ _.
          Ensures-bind (draw-lt src (length buf) h)
            λ pos inside. Ensures-weaken (λ _ _. tt) (index-inside buf pos inside))
        (λ _. Ensures-weaken (λ _ _. tt) (draw-lt src 256 (omega arith)))
