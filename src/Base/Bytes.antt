-- ===== src/Base/Bytes.antt =====
-- Byte buffers: a list of bytes, and the little-endian word that a group of bytes holds when it is
-- read through a wider pointer, as x86 does.
use native.Mathlib.Nat.{pow-suc}
use nfuzzer.Base.{
  ℕ, zero, suc, ◌+◌, ◌-◌, ◌*◌, ◌/◌, ◌%◌, ◌^◌, ◌<◌, bit_and, ◌≡◌, refl, ap, ap₂, arith, List, [],
  ◌∷◌, ◌++◌, map, take, drop, get_or, length, min,
}
use nfuzzer.Base.Bits.{bit_and_fields}

abbrev pub All {ℓ κ} : {A : Type ℓ} → (A → Type κ) → List A → Type κ
All P [] = Unit
All P (x ∷ xs) = P x × All P xs

abbrev pub IsBytes : List ℕ → Type 0
IsBytes = All (λ b. b < 256)

abbrev pub zip_with {ℓ κ μ} :
    {A : Type ℓ} {B : Type κ} {C : Type μ} → (A → B → C) → List A → List B → List C
zip_with f [] ys = []
zip_with f (x ∷ xs) [] = []
zip_with f (x ∷ xs) (y ∷ ys) = f x y ∷ zip_with f xs ys

-- `*(uN*)p` on a little-endian machine, the list being the N / 8 bytes from p on.
unfoldable pub load : List ℕ → ℕ
load [] = 0
load (b ∷ bs) = b + 256 * load bs

-- `*(uN*)p = w`: the n bytes that are written.
unfoldable pub store : ℕ → ℕ → List ℕ
store zero w = []
store (suc n) w = w % 256 ∷ store n (w / 256)

pub load-lt : (xs : List ℕ) → IsBytes xs → load xs < 256 ^ length xs
unfolding load
load-lt [] h = omega arith
load-lt (b ∷ bs) h = omega (arith, load-lt bs h.1, pow-suc 256 (length bs))

-- Writing back the word that was read changes nothing.
pub store-load : (xs : List ℕ) → IsBytes xs → store (length xs) (load xs) ≡ xs
unfolding load store
store-load [] h = refl
store-load (b ∷ bs) h = ap₂ ◌∷◌ (omega arith) (rw (high b (load bs) h.0) (store-load bs h.1))
  where
    high : (c w : ℕ) → c < 256 → (c + 256 * w) / 256 ≡ w
    high c w p = omega arith

pub length-store : (n w : ℕ) → length (store n w) ≡ n
unfolding store
length-store zero w = refl
length-store (suc n) w = ap suc (length-store n (w / 256))

pub store-IsBytes : (n w : ℕ) → IsBytes (store n w)
unfolding store
store-IsBytes zero w = tt
store-IsBytes (suc n) w = (omega arith, store-IsBytes n (w / 256))

-- A word is 0 exactly when all its bytes are.
pub load-zero : (xs : List ℕ) → load xs ≡ 0 → All (λ b. b ≡ 0) xs
unfolding load
load-zero [] h = tt
load-zero (b ∷ bs) h = (omega arith, load-zero bs (omega arith))

pub zero-load : (xs : List ℕ) → All (λ b. b ≡ 0) xs → load xs ≡ 0
unfolding load
zero-load [] h = refl
zero-load (b ∷ bs) h = omega (arith, zero-load bs h.1)

-- `&` of two words is `&` of their bytes.
pub load-bit_and :
    (xs ys : List ℕ)
    → length xs ≡ length ys
    → IsBytes xs
    → IsBytes ys
    → bit_and (load xs) (load ys) ≡ load (zip_with bit_and xs ys)
unfolding load
load-bit_and [] [] e h k = refl
load-bit_and [] (y ∷ ys) e h k = absurd (omega arith)
load-bit_and (x ∷ xs) [] e h k = absurd (omega arith)
load-bit_and (x ∷ xs) (y ∷ ys) e h k = omega (
  arith,
  bit_and_fields 8 x y (load xs) (load ys) h.0 k.0,
  load-bit_and xs ys (omega arith) h.1 k.1,
)

-- The complement of a word is the complement of its bytes.
pub load-complement :
    (xs : List ℕ) → IsBytes xs → 256 ^ length xs - 1 - load xs ≡ load (map (λ b. 255 - b) xs)
unfolding load
load-complement [] h = refl
load-complement (b ∷ bs) h =
    omega (arith, load-complement bs h.1, load-lt bs h.1, pow-suc 256 (length bs))

pub complement-IsBytes : (xs : List ℕ) → IsBytes (map (λ b. 255 - b) xs)
complement-IsBytes [] = tt
complement-IsBytes (b ∷ bs) = (omega arith, complement-IsBytes bs)

module _ {ℓ κ} {A : Type ℓ} (P : A → Type κ) where
  pub All-take : (n : ℕ) (xs : List A) → All P xs → All P (take n xs)
  All-take zero xs h = tt
  All-take (suc n) [] h = tt
  All-take (suc n) (x ∷ xs) h = (h.0, All-take n xs h.1)

  pub All-drop : (n : ℕ) (xs : List A) → All P xs → All P (drop n xs)
  All-drop zero xs h = h
  All-drop (suc n) [] h = tt
  All-drop (suc n) (x ∷ xs) h = All-drop n xs h.1

  pub All-append : (xs ys : List A) → All P xs → All P ys → All P (xs ++ ys)
  All-append [] ys h k = k
  All-append (x ∷ xs) ys h k = (h.0, All-append xs ys h.1 k)

module _ {ℓ κ μ} {A : Type ℓ} {B : Type κ} {C : Type μ} (f : A → B → C) where
  zip_with-nil : (xs : List A) → zip_with f xs [] ≡ []
  zip_with-nil [] = refl
  zip_with-nil (x ∷ xs) = refl

  pub zip_with-take-drop :
      (n : ℕ) (xs : List A) (ys : List B)
      → zip_with f (take n xs) (take n ys) ++ zip_with f (drop n xs) (drop n ys) ≡ zip_with f xs ys
  zip_with-take-drop zero xs ys = refl
  zip_with-take-drop (suc n) [] ys = refl
  zip_with-take-drop (suc n) (x ∷ xs) [] = zip_with-nil (drop n xs)
  zip_with-take-drop (suc n) (x ∷ xs) (y ∷ ys) = ap (λ t. f x y ∷ t) (zip_with-take-drop n xs ys)

  pub length-zip_with :
      (xs : List A) (ys : List B) → length (zip_with f xs ys) ≡ min (length xs) (length ys)
  length-zip_with [] ys = omega arith
  length-zip_with (x ∷ xs) [] = omega arith
  length-zip_with (x ∷ xs) (y ∷ ys) = omega (arith, length-zip_with xs ys)

pub get_or-lt : (xs : List ℕ) (i : ℕ) → IsBytes xs → get_or xs i 0 < 256
get_or-lt [] i h = omega arith
get_or-lt (x ∷ xs) zero h = h.0
get_or-lt (x ∷ xs) (suc i) h = get_or-lt xs i h.1

-- Reading the bytes that were written gives the word, if it fits.
pub load-store : (n w : ℕ) → w < 256 ^ n → load (store n w) ≡ w
unfolding load store
load-store zero w h = omega arith
load-store (suc n) w h =
    omega (arith, load-store n (w / 256) (omega (arith, pow-suc 256 n)), pow-suc 256 n)
