-- ===== src/Tmin/Weights.antt =====
-- What the minimizer makes smaller: the length of the file, and the number of bytes that are not '0'.
use nfuzzer.Base.{
  ℕ, zero, suc, ◌+◌, ◌≤◌, ◌<◌, ◌≡◌, ◌≢◌, refl, arith, ◌==◌, if◌then◌else◌, List, [], ◌∷◌, ◌++◌,
  length, get_or, set, take, drop, length-append, length-take, length-drop, length-set, ◌*◌,
}
use nfuzzer.Tmin.{filler, occurrences, replace_symbol}

-- The bytes that are not '0'.
pub marks : List ℕ → ℕ
marks [] = 0
marks (x ∷ xs) = if x == filler then marks xs else suc (marks xs)

pub weight : List ℕ → ℕ
weight xs = length xs + marks xs

pub weight-le : (xs : List ℕ) → weight xs ≤ 2 * length xs
unfolding weight marks
weight-le [] = omega arith
weight-le (x ∷ xs) = ground (arith, weight-le xs)

marks-drop : (j : ℕ) (xs : List ℕ) → marks (drop j xs) ≤ marks xs
unfolding marks
marks-drop zero xs = omega arith
marks-drop (suc j) [] = omega arith
marks-drop (suc j) (x ∷ xs) = ground (arith, marks-drop j xs)

marks-cut : (i j : ℕ) (xs : List ℕ) → i ≤ j → marks (take i xs ++ drop j xs) ≤ marks xs
unfolding marks
marks-cut zero j xs h = marks-drop j xs
marks-cut (suc i) zero xs h = absurd (omega arith)
marks-cut (suc i) (suc j) [] h = omega arith
marks-cut (suc i) (suc j) (x ∷ xs) h = ground (arith, marks-cut i j xs)

-- Deleting a block that starts inside makes the file lighter.
pub weight-cut :
    (i j : ℕ) (xs : List ℕ) → i < j → i < length xs → weight (take i xs ++ drop j xs) < weight xs
unfolding weight
weight-cut i j xs h inside = omega (
  arith,
  length-append (take i xs) (drop j xs),
  length-take i xs,
  length-drop j xs,
  marks-cut i j xs,
)

pub length-cut :
    (i j : ℕ) (xs : List ℕ) → i < j → i < length xs → length (take i xs ++ drop j xs) < length xs
length-cut i j xs h inside =
    omega (arith, length-append (take i xs) (drop j xs), length-take i xs, length-drop j xs)

pub length-replace_symbol : (i : ℕ) (xs : List ℕ) → length (replace_symbol i xs) ≡ length xs
unfolding replace_symbol
length-replace_symbol i [] = refl
length-replace_symbol i (x ∷ xs) = omega (arith, length-replace_symbol i xs)

marks-replace_symbol : (i : ℕ) (xs : List ℕ) → marks (replace_symbol i xs) ≤ marks xs
unfolding replace_symbol marks
marks-replace_symbol i [] = omega arith
marks-replace_symbol i (x ∷ xs) = ground (arith, marks-replace_symbol i xs)

marks-replaced :
    (i : ℕ) (xs : List ℕ)
    → i ≢ filler
    → 0 < occurrences i xs
    → marks (replace_symbol i xs) < marks xs
unfolding replace_symbol marks occurrences
marks-replaced i [] h k = absurd (omega (arith, k))
marks-replaced i (x ∷ xs) h k =
    ground (arith, h, k, marks-replaced i xs h, marks-replace_symbol i xs)

-- Replacing a symbol that occurs makes the file lighter.
pub weight-replace_symbol :
    (i : ℕ) (xs : List ℕ)
    → i ≢ filler
    → 0 < occurrences i xs
    → weight (replace_symbol i xs) < weight xs
unfolding weight
weight-replace_symbol i xs h k = omega (arith, length-replace_symbol i xs, marks-replaced i xs h k)

-- The other symbols occur as often as before.
pub occurrences-replace_symbol :
    (k i : ℕ) (xs : List ℕ)
    → k ≢ i
    → k ≢ filler
    → occurrences k (replace_symbol i xs) ≡ occurrences k xs
unfolding replace_symbol occurrences
occurrences-replace_symbol k i [] h f = refl
occurrences-replace_symbol k i (x ∷ xs) h f =
    ground (arith, h, f, occurrences-replace_symbol k i xs h f)

marks-set :
    (xs : List ℕ) (i : ℕ)
    → i < length xs
    → get_or xs i 0 ≢ filler
    → marks (set xs i filler) < marks xs
unfolding marks
marks-set [] i h k = absurd (omega arith)
marks-set (x ∷ xs) zero h k = ground (arith, k)
marks-set (x ∷ xs) (suc i) h k = ground (arith, marks-set xs i (omega arith) k)

-- Turning a byte into '0' makes the file lighter.
pub weight-set :
    (xs : List ℕ) (i : ℕ)
    → i < length xs
    → get_or xs i 0 ≢ filler
    → weight (set xs i filler) < weight xs
unfolding weight
weight-set xs i h k = omega (arith, length-set xs i filler, marks-set xs i h k)
