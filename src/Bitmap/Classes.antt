-- ===== src/Bitmap/Classes.antt =====
-- The hit-count classes: `count_class_lookup8`, `init_count_class16` and `classify_counts` of
-- fuzzer/afl-fuzz.c (the flavour for x86_64), and the byte-wise `classify_counts` of afl-tmin.c,
-- afl-analyze.c and afl-showmap.c.
pub mod Table
pub mod Bytewise
use nfuzzer.Base.{
  ℕ, zero, suc, ◌+◌, ◌*◌, ◌/◌, ◌^◌, ◌==◌, ltb, if◌then◌else◌, bit_or, Bool, not, List, [], ◌∷◌,
  ◌++◌, take, drop,
}
use nfuzzer.Base.Bytes.{load, store}
use nfuzzer.Bitmap.Groups.{each_group}
use nfuzzer.Config.{map_size}

-- The designated initialisers, in order; an index is a byte.
unfoldable pub count_class_lookup8 : ℕ → ℕ
count_class_lookup8 b =
    if b == 0
    then 0
    else if b == 1
    then 1
    else if b == 2
    then 2
    else if b == 3
    then 4
    else if ltb b 8
    then 8
    else if ltb b 16
    then 16
    else if ltb b 32
    then 32
    else if ltb b 128
    then 64
    else 128

-- `u16 count_class_lookup16[65536]`, an array as a function of the index.
abbrev pub Table16 : Type 0
Table16 = ℕ → ℕ

abbrev pub write16 : ℕ → ℕ → Table16 → Table16
write16 i v t j = if j == i then v else t j

-- `for (b2 = 0; b2 < 256; b2++) count_class_lookup16[(b1 << 8) + b2] = …`, n rounds from b2 on
pub init_row : ℕ → ℕ → ℕ → Table16 → Table16
init_row b1 zero b2 t = t
init_row b1 (suc n) b2 t =
    init_row b1 n (b2 + 1) (
      write16 (b1 * 2 ^ 8 + b2) (bit_or (count_class_lookup8 b1 * 2 ^ 8) (count_class_lookup8 b2))
        t)

pub init_rows : ℕ → ℕ → Table16 → Table16
init_rows zero b1 t = t
init_rows (suc n) b1 t = init_rows n (b1 + 1) (init_row b1 256 0 t)

-- A static array starts at 0.
pub init_count_class16 : Table16
init_count_class16 = init_rows 256 0 (λ i. 0)

-- `mem16[k] = count_class_lookup16[mem16[k]]` for the n words of 16 bits from `mem16` on
pub classify_halves : Table16 → ℕ → List ℕ → List ℕ
classify_halves t zero mem16 = []
classify_halves t (suc n) mem16 =
    store 2 (t (load (take 2 mem16))) ++ classify_halves t n (drop 2 mem16)

pub classify_word : Table16 → List ℕ → List ℕ
classify_word t mem = if load mem == 0 then mem else classify_halves t 4 mem

pub classify_counts : ℕ → Table16 → List ℕ → List ℕ
classify_counts pow2 t mem = each_group (classify_word t) (map_size pow2 / 8) mem

-- The version of the other tools, byte by byte; `edges_only` keeps no counts.
pub classify_bytes : Bool → (ℕ → ℕ) → ℕ → List ℕ → List ℕ
classify_bytes edges_only lookup zero mem = mem
classify_bytes edges_only lookup (suc i) [] = []
classify_bytes edges_only lookup (suc i) (b ∷ mem) =
    (if edges_only then if b == 0 then 0 else 1 else lookup b)
    ∷ classify_bytes edges_only lookup i mem
