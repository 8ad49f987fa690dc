-- ===== src/Mutate/Sizes.antt =====
-- The random tweaks do not fault, and what they do to the size of the buffer.
use nfuzzer.Base.{
  ℕ, ◌+◌, ◌-◌, ◌*◌, ◌/◌, ◌≤◌, ◌<◌, ◌≡◌, refl, arith, false, ltb, ◌==◌, List, [], ◌∷◌, length,
  length-take, length-replicate,
}
use nfuzzer.Base.Bytes.{store, length-store}
use nfuzzer.Havoc.Blocks.{blk_xl}
use nfuzzer.Havoc.Dupes.{interesting_8, interesting_16, interesting_32}
use nfuzzer.Mutate.Draw.{
  Source, Draw, ◌>>=◌, Ensures, Ensures-give, Ensures-bind, Ensures-elim, Ensures-weaken, draw-lt,
  block_len-bounds,
}
use nfuzzer.Mutate.Memory.{write, index, read-length, write-length, index-inside, fill_byte-inside}
use nfuzzer.Mutate.Tweaks.{
  flip_random_bit, interesting_byte, interesting_word, interesting_word16, interesting_word32,
  change_byte, subtract_from_byte, add_to_byte, change_word, subtract_from_word, add_to_word,
  subtract_from_dword, add_to_dword, random_byte, delete_block, cloned_block, constant_block,
  insert_block, overwrite_block, splice_in, move_block,
}

abbrev pub Keeps : {G : Type 0} → List ℕ → Draw G (List ℕ) → Type 0
Keeps buf = Ensures (λ b. length b ≡ length buf)

pub not_below : (a b : ℕ) → ltb a b ≡ false → b ≤ a
not_below a b h = ground arith

module _ {G : Type 0} (src : Source G) (buf : List ℕ) where
  -- A byte that is read and written at a position inside.
  byte_changed :
      (pos : ℕ) (change : ℕ → ℕ)
      → pos < length buf
      → Keeps {G = G} buf (index buf pos >>= λ byte. write buf pos (change byte ∷ []))
  byte_changed pos change inside =
      Ensures-bind (index-inside buf pos inside)
        λ byte _. write-length buf pos (change byte ∷ []) (omega arith)

  pub flip_random_bit-length : 0 < length buf → Keeps buf (flip_random_bit src buf)
  unfolding flip_random_bit
  flip_random_bit-length h =
      Ensures-bind (draw-lt src (length buf * 8) (omega arith))
        λ bit inside. byte_changed (bit / 8) _ (omega arith)

  pub interesting_byte-length : 0 < length buf → Keeps buf (interesting_byte src buf)
  unfolding interesting_byte interesting_8
  interesting_byte-length h = Ensures-bind (draw-lt src (length buf) h) λ pos inside.
      Ensures-bind (draw-lt src 9 (omega arith)) λ k known.
        Ensures-bind (index-inside (interesting_8 8) k known)
          λ value _. write-length buf pos (value ∷ []) (omega arith)

  interesting_word-length :
      (n : ℕ) (swap : ℕ → ℕ) (table : List ℕ)
      → 0 < n
      → 0 < length table
      → Keeps buf (interesting_word src n swap table buf)
  unfolding interesting_word
  interesting_word-length n swap table some_bytes filled =
      Ensures-elim (ltb (length buf) n) (λ _. Ensures-give buf refl)
        λ fits.
          let room = not_below (length buf) n fits in
          Ensures-bind (draw-lt src 2 (omega arith)) λ coin _.
            Ensures-bind (draw-lt src (length buf - (n - 1)) (omega arith)) λ pos inside.
              Ensures-bind (draw-lt src (length table) filled) λ k known.
                Ensures-bind (index-inside table k known)
                  λ value _. write-length buf pos (store n _) (omega (arith, length-store n))

  pub interesting_word16-length : Keeps buf (interesting_word16 src buf)
  unfolding interesting_word16 interesting_16 interesting_8
  interesting_word16-length = interesting_word-length 2 _ _ (omega arith) (omega arith)

  pub interesting_word32-length : Keeps buf (interesting_word32 src buf)
  unfolding interesting_word32 interesting_32 interesting_16 interesting_8
  interesting_word32-length = interesting_word-length 4 _ _ (omega arith) (omega arith)

  change_byte-length :
      (change : ℕ → ℕ → ℕ) → 0 < length buf → Keeps buf (change_byte src change buf)
  unfolding change_byte
  change_byte-length change h =
      Ensures-bind (draw-lt src (length buf) h)
        λ pos inside. Ensures-bind (draw-lt src 35 (omega arith)) λ r _. byte_changed pos _ inside

  pub subtract_from_byte-length : 0 < length buf → Keeps buf (subtract_from_byte src buf)
  unfolding subtract_from_byte
  subtract_from_byte-length = change_byte-length _

  pub add_to_byte-length : 0 < length buf → Keeps buf (add_to_byte src buf)
  unfolding add_to_byte
  add_to_byte-length = change_byte-length _

  change_word-length :
      (n : ℕ) (swap : ℕ → ℕ) (change : ℕ → ℕ → ℕ)
      → 0 < n
      → Keeps buf (change_word src n swap change buf)
  unfolding change_word
  change_word-length n swap change some_bytes =
      Ensures-elim (ltb (length buf) n) (λ _. Ensures-give buf refl)
        λ fits.
          let room = not_below (length buf) n fits in
          Ensures-bind (draw-lt src 2 (omega arith)) λ coin _.
            Ensures-bind (draw-lt src (length buf - (n - 1)) (omega arith)) λ pos inside.
              Ensures-bind (draw-lt src 35 (omega arith)) λ r _.
                Ensures-bind (read-length buf pos n (omega arith))
                  λ word _. write-length buf pos (store n _) (omega (arith, length-store n))

  pub subtract_from_word-length : Keeps buf (subtract_from_word src buf)
  unfolding subtract_from_word
  subtract_from_word-length = change_word-length 2 _ _ (omega arith)

  pub add_to_word-length : Keeps buf (add_to_word src buf)
  unfolding add_to_word
  add_to_word-length = change_word-length 2 _ _ (omega arith)

  pub subtract_from_dword-length : Keeps buf (subtract_from_dword src buf)
  unfolding subtract_from_dword
  subtract_from_dword-length = change_word-length 4 _ _ (omega arith)

  pub add_to_dword-length : Keeps buf (add_to_dword src buf)
  unfolding add_to_dword
  add_to_dword-length = change_word-length 4 _ _ (omega arith)

  pub random_byte-length : 0 < length buf → Keeps buf (random_byte src buf)
  unfolding random_byte
  random_byte-length h =
      Ensures-bind (draw-lt src (length buf) h)
        λ pos inside. Ensures-bind (draw-lt src 255 (omega arith)) λ r _. byte_changed pos _ inside

  pub splice_in-length :
      (at : ℕ) (part : List ℕ)
      → at ≤ length buf
      → Ensures {G = G} (λ b. length b ≡ length buf + length part) (splice_in buf at part)
  unfolding splice_in
  splice_in-length at part inside =
      let zero_byte : ℕ = 0 in
      let size = length-replicate (length buf + length part) zero_byte in
      Ensures-bind (read-length buf 0 at (omega arith)) λ head a.
        Ensures-bind (write-length _ 0 head (omega (arith, a, size, inside))) λ b1 b.
          Ensures-bind (write-length b1 at part (omega (arith, b, size, inside))) λ b2 c.
            Ensures-bind (read-length buf at (length buf - at) (omega (arith, inside))) λ tail d.
              Ensures-weaken (λ b3 e. omega (arith, b, c, e, size))
                (write-length b2 (at + length part) tail (omega (arith, b, c, d, size, inside)))

  module _ (started : 0 < src.queue_cycle) where
    -- A block of 1 to `temp_len - 1` bytes goes.
    pub delete_block-length :
        1 < length buf
        → Ensures (λ b. (1 ≤ length b) × (length b < length buf)) (delete_block src buf)
    unfolding delete_block
    delete_block-length h =
        Ensures-bind (block_len-bounds src (length buf - 1) started (omega arith)) λ n sized.
          Ensures-bind (draw-lt src (length buf - n + 1) (omega arith)) λ from inside.
            Ensures-bind (read-length buf (from + n) _ (omega (arith, sized))) λ tail rest.
              Ensures-bind (write-length buf from tail (omega (arith, sized))) λ moved same.
                Ensures-give _ (
                  omega (arith, sized, length-take (length buf - n) moved),
                  omega (arith, sized, length-take (length buf - n) moved),
                )

    constant_block-length :
        (n : ℕ) → 0 < length buf → Ensures (λ w. length w ≡ n) (constant_block src buf n)
    unfolding constant_block
    constant_block-length n h =
        Ensures-bind (fill_byte-inside src buf h) λ byte _. Ensures-give _ (length-replicate n byte)

    cloned_block-length :
        0 < length buf → Ensures (λ w. (1 ≤ length w) × (length w ≤ blk_xl)) (cloned_block src buf)
    unfolding cloned_block
    cloned_block-length h = Ensures-bind (block_len-bounds src (length buf) started h) λ n sized.
        Ensures-bind (draw-lt src (length buf - n + 1) (omega arith)) λ from inside.
          Ensures-weaken (λ w same. (omega (arith, sized), omega (arith, sized)))
            (read-length buf from n (omega (arith, sized)))

    -- A block of 1 to HAVOC_BLK_XL bytes comes in.
    pub insert_block-length :
        0 < length buf
        → Ensures
            (λ b. (length buf < length b) × (length b ≤ length buf + blk_xl))
            (insert_block src buf)
    unfolding insert_block
    insert_block-length h = Ensures-bind (draw-lt src 4 (omega arith)) λ coin _.
        Ensures-elim (coin == 0)
          (λ _. Ensures-bind (block_len-bounds src blk_xl started (omega arith)) λ n sized.
            Ensures-bind (draw-lt src (length buf) h) λ to inside.
              Ensures-bind (constant_block-length n h) λ part same.
                Ensures-weaken (λ b grown. (omega (arith, sized), omega (arith, sized)))
                  (splice_in-length to part (omega arith)))
          (λ _. Ensures-bind (cloned_block-length h) λ part sized.
            Ensures-bind (draw-lt src (length buf) h) λ to inside.
              Ensures-weaken (λ b grown. (omega (arith, sized), omega (arith, sized)))
                (splice_in-length to part (omega arith)))

    move_block-length :
        (from to n : ℕ)
        → from + n ≤ length buf
        → to + n ≤ length buf
        → Keeps {G = G} buf (move_block buf from to n)
    unfolding move_block
    move_block-length from to n h k =
        Ensures-elim (from == to) (λ _. Ensures-give buf refl)
          λ _.
            Ensures-bind (read-length buf from n h)
              λ part same. write-length buf to part (omega arith)

    pub overwrite_block-length : 1 < length buf → Keeps buf (overwrite_block src buf)
    unfolding overwrite_block
    overwrite_block-length h =
        Ensures-bind (block_len-bounds src (length buf - 1) started (omega arith)) λ n sized.
          Ensures-bind (draw-lt src (length buf - n + 1) (omega arith)) λ from a.
            Ensures-bind (draw-lt src (length buf - n + 1) (omega arith)) λ to b.
              Ensures-bind (draw-lt src 4 (omega arith)) λ coin _.
                Ensures-elim (coin == 0)
                  (λ _.
                    Ensures-bind (constant_block-length n (omega arith))
                      λ part same. write-length buf to part (omega (arith, sized)))
                  (λ _. move_block-length from to n (omega (arith, sized)) (omega (arith, sized)))
