-- ===== src/Bitmap/Classes/Table.antt =====
-- What `init_count_class16` leaves in the table.
use nfuzzer.Base.{
  ℕ, zero, suc, ◌+◌, ◌*◌, ◌/◌, ◌%◌, ◌^◌, ◌≤◌, ◌<◌, if◌then◌else◌, bit_or, ◌≡◌, refl, ap, ◌∙◌, arith,
  [], ◌∷◌, leb, ltb, ap₂, ◌↔◌,
}
use nfuzzer.Base.Bytes.{load, store}
use nfuzzer.Base.Bits.{bit_or_fields}
use nfuzzer.Bitmap.Classes.{
  count_class_lookup8, Table16, write16, init_row, init_rows, init_count_class16,
}

-- A class is 0 for a byte that was not hit and else a single bit.
pub count_class-lt : (b : ℕ) → count_class_lookup8 b < 256
unfolding count_class_lookup8
count_class-lt b = ground arith

-- Both bytes of a pair are classified at once.
abbrev pub pair_class : ℕ → ℕ
pair_class i = count_class_lookup8 (i / 256) * 256 + count_class_lookup8 (i % 256)

init_row_lem :
    (b1 n b2 i : ℕ) (t : Table16)
    → b1 < 256
    → b2 + n ≡ 256
    → init_row b1 n b2 t i ≡ (
        if leb (b1 * 256 + b2) i then if ltb i (b1 * 256 + 256) then pair_class i else t i else t i)
unfolding init_row
init_row_lem b1 zero b2 i t h e = ground arith
init_row_lem b1 (suc n) b2 i t h e = ground (
  arith,
  init_row_lem b1 n (b2 + 1) i
      (write16 (b1 * 2 ^ 8 + b2) (bit_or (count_class_lookup8 b1 * 2 ^ 8) (count_class_lookup8 b2))
        t)
      h (omega arith),
  entry,
  here,
)
  where
    entry :
        bit_or (count_class_lookup8 b1 * 2 ^ 8) (count_class_lookup8 b2)
        ≡ count_class_lookup8 b1 * 256 + count_class_lookup8 b2
    entry =
        ap (λ q. bit_or q (count_class_lookup8 b2)) (omega arith)
        ∙ bit_or_fields 8 (count_class_lookup8 b1) (count_class_lookup8 b2) (count_class-lt b2)
        ∙ omega arith

    here : i ≡ b1 * 256 + b2 → pair_class i ≡ count_class_lookup8 b1 * 256 + count_class_lookup8 b2
    here j =
        let high : i / 256 ≡ b1 = omega arith in
        let low : i % 256 ≡ b2 = omega arith in rw (high, low)

init_rows_lem :
    (n b1 i : ℕ) (t : Table16)
    → b1 + n ≡ 256
    → init_rows n b1 t i
      ≡ (if leb (b1 * 256) i then if ltb i 65536 then pair_class i else t i else t i)
unfolding init_rows
init_rows_lem zero b1 i t e = ground arith
init_rows_lem (suc n) b1 i t e = ground (
  arith,
  init_rows_lem n (b1 + 1) i (init_row b1 256 0 t) (omega arith),
  init_row_lem b1 256 0 i t (omega arith) refl,
)

-- `init_count_class16` stores at every 16-bit index the classes of its two bytes, for every index
-- below 65536.
pub init_count_class16_lem : (i : ℕ) → i < 65536 → init_count_class16 i ≡ pair_class i
unfolding init_count_class16
init_count_class16_lem i h = ground (arith, init_rows_lem 256 0 i (λ j. 0) refl)

-- Two bytes read as a word, classified through the table, and written back are the classes of the
-- two bytes.
pub store-classes :
    (a b : ℕ)
    → a < 256
    → b < 256
    → store 2 (init_count_class16 (load (a ∷ b ∷ [])))
      ≡ count_class_lookup8 a ∷ count_class_lookup8 b ∷ []
unfolding load store
store-classes a b ha hb = rw (init_count_class16_lem (load (a ∷ b ∷ [])) (omega arith)) (
    let high : load (a ∷ b ∷ []) / 256 ≡ b = omega arith in
    let low : load (a ∷ b ∷ []) % 256 ≡ a = omega arith in
    rw (high, low)
      (ap₂ ◌∷◌ (omega (arith, count_class-lt a, count_class-lt b))
        (ap (λ t. t ∷ []) (omega (arith, count_class-lt a, count_class-lt b)))))

-- The classes keep the order of the counts, and only a count of 0 has class 0.
pub count_class_mono :
    (a b : ℕ)
    → a ≤ b
    → (count_class_lookup8 a ≤ count_class_lookup8 b) × ((count_class_lookup8 a ≡ 0) ↔ (a ≡ 0))
unfolding count_class_lookup8
count_class_mono a b h = (ground arith, ground arith)
