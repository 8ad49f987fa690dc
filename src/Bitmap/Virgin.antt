-- ===== src/Bitmap/Virgin.antt =====
-- `has_new_bits` of fuzzer/afl-fuzz.c, in the flavour for x86_64: two u64 pointers walk the trace
-- and a virgin map. A byte array is a list of bytes, and `pointer++` drops the bytes of one word.
pub mod Words
pub mod Novelty
use nfuzzer.Base.{
  ℕ, zero, suc, ◌-◌, ◌/◌, ◌^◌, ◌==◌, ltb, if◌then◌else◌, bit_and, Bool, true, false, not, ◌&&◌,
  ◌||◌, List, [], ◌∷◌, ◌++◌, take, drop,
}
use nfuzzer.Base.Bytes.{load, store}
use nfuzzer.Config.{map_size}

-- Which of the three virgin maps the caller passes.
pub data VirginMap : Type 0 where
  virgin_bits virgin_tmout virgin_crash : VirginMap

-- The globals that the routine reads and writes.
pub record Maps : Type 0 where
  pub trace_bits : List ℕ
  pub bits : List ℕ
  pub tmout : List ℕ
  pub crash : List ℕ
  pub bitmap_changed : Bool

abbrev pub virgin_map : VirginMap → Maps → List ℕ
virgin_map virgin_bits m = m.bits
virgin_map virgin_tmout m = m.tmout
virgin_map virgin_crash m = m.crash

abbrev pub set_virgin : VirginMap → List ℕ → Maps → Maps
set_virgin virgin_bits v m = record m { bits = v }
set_virgin virgin_tmout v m = record m { tmout = v }
set_virgin virgin_crash v m = record m { crash = v }

-- `(cur[0] && vir[0] == 0xff) || (cur[1] && vir[1] == 0xff) || …`
pub pristine_hit : List ℕ → List ℕ → Bool
pristine_hit [] vir = false
pristine_hit (c ∷ cur) [] = false
pristine_hit (c ∷ cur) (v ∷ vir) = (not (c == 0) && v == 255) || pristine_hit cur vir

-- What the loop does at one pair of words: the new `ret`, and the word of the virgin map.
pub visit_word : List ℕ → List ℕ → ℕ → ℕ × List ℕ
visit_word cur vir ret =
    let c = load cur in
    let v = load vir in
    if not (c == 0) && not (bit_and c v == 0)
    then (
      if ltb ret 2 then if pristine_hit cur vir then 2 else 1 else ret,
      store 8 (bit_and v (2 ^ 64 - 1 - c)),
    )
    else (ret, vir)

-- The loop, with i words left; the list is what it leaves from `virgin` on.
pub new_bits_loop : ℕ → List ℕ → List ℕ → ℕ → ℕ × List ℕ
new_bits_loop zero cur vir ret = (ret, vir)
new_bits_loop (suc i) cur vir ret =
    let (ret', word) = visit_word (take 8 cur) (take 8 vir) ret in
    let (last, rest) = new_bits_loop i (drop 8 cur) (drop 8 vir) ret' in (last, word ++ rest)

-- `if (ret && virgin_map == virgin_bits) bitmap_changed = 1`
pub mark_changed : VirginMap → ℕ → Maps → Maps
mark_changed virgin_bits ret m = if ret == 0 then m else record m { bitmap_changed = true }
mark_changed virgin_tmout ret m = m
mark_changed virgin_crash ret m = m

-- The number is MAP_SIZE_POW2.
pub has_new_bits : ℕ → VirginMap → Maps → ℕ × Maps
has_new_bits pow2 which m =
    let (ret, vir) = new_bits_loop (map_size pow2 / 8) m.trace_bits (virgin_map which m) 0 in
    (ret, mark_changed which ret (set_virgin which vir m))
