-- ===== src/Tree/Reading.antt =====
-- When reading a chunk file ends with a tree.
use nfuzzer.Base.{
  ℕ, zero, suc, ◌+◌, ◌<◌, ◌≡◌, refl, arith, Bool, true, false, ◌==◌, Option, none, some, List, [],
  ◌∷◌, length, drop, length-drop, ◌>>=◌, ◌++◌, get_elem?, ap, sym, ◌∙◌, Bool-cases, inl, inr,
}
use nfuzzer.Tree.{Tree, null, chunk}
use nfuzzer.Tree.Search.{Node}
use nfuzzer.Base.Bytes.{All}
use nfuzzer.Tree.Paths.{
  Line, next_lower_chunk, segment, split_line_on_comma, is_digit, digits_of, after_digits,
  number_of,
}
use nfuzzer.Tree.Copy.{Copied}
use nfuzzer.Tree.Grow.{
  Reading, read_to, overrun, unfinished, grow, add_path_at, add_path, add_lines, get_chunks,
  grown_to, and_then, find_child,
}

-- The outcomes that are not a lack of fuel.
abbrev pub IsSome : {A : Type 0} → Option A → Type 0
IsSome {A = A} o = (a : A) × (o ≡ some a)

bind-IsSome :
    {A B : Type 0} (o : Option A) (f : A → Option B)
    → IsSome o
    → ((a : A) → IsSome (f a))
    → IsSome (o >>= f)
bind-IsSome none f h k = absurd (ground (arith, h.1))
bind-IsSome (some a) f h k = k a

branch-IsSome :
    {A : Type 0} (b : Bool) (x y : Option A)
    → IsSome x
    → IsSome y
    → IsSome (elim b [ true ↦ x | false ↦ y ])
branch-IsSome true x y p q = p
branch-IsSome false x y p q = q

match-IsSome :
    {A B : Type 0} (o : Option A) (f : A → Option B) (y : Option B)
    → ((a : A) → IsSome (f a))
    → IsSome y
    → IsSome (elim o [ some a ↦ f a | none ↦ y ])
match-IsSome (some a) f y p q = p a
match-IsSome none f y p q = q

empty_path :
    (fuel : ℕ) (line : Line) (n : Node) (free : ℕ)
    → grow (suc fuel) line [] true n free ≡ some (record { node = n; free = free })
unfolding grow next_lower_chunk segment
empty_path fuel line n free = refl

grow_lem :
    (fuel : ℕ) (line : Line) (path : List ℕ) (non_last : Bool) (n : Node) (free : ℕ)
    → length path < fuel
    → IsSome (grow fuel line path non_last n free)
unfolding grow
grow_lem zero line path non_last n free h = absurd (omega arith)
grow_lem (suc fuel) line path false n free h = (_, refl)
grow_lem (suc fuel) line [] true n free h =
    (record { node = n; free = free }, empty_path fuel line n free)
grow_lem (suc fuel) line (c ∷ cs) true n free h =
    let s = next_lower_chunk (c ∷ cs) in
    let next = drop (s.length + 1) (c ∷ cs) in
    let less : length next < fuel = omega (arith, length-drop (s.length + 1) (c ∷ cs)) in
    branch-IsSome (s.length == 0) _ _ (_, refl)
      (match-IsSome (find_child s.hash n.children) _ _
        (λ child. bind-IsSome _ _ (grow_lem fuel line next s.non_last _ free less) (λ r. (_, refl)))
        (bind-IsSome _ _ (grow_lem fuel line next s.non_last _ (free + 1) less) (λ r. (_, refl))))

path_left : (path : List ℕ) (n : ℕ) → length (drop n path) < length path + 1
path_left path n = omega (arith, length-drop n path)

add_path_at_lem : (tree : Tree) (line : Line) (free : ℕ) → IsSome (add_path_at tree line free)
unfolding add_path_at
add_path_at_lem null line free =
    let s = next_lower_chunk line.path in
    let left = path_left line.path (s.length + 1) in
    branch-IsSome (s.length == 0) _ _ (_, refl)
      (bind-IsSome _ _ (grow_lem _ line _ s.non_last _ (free + 1) left) (λ r. (_, refl)))
add_path_at_lem (chunk f next children) line free =
    let s = next_lower_chunk line.path in
    let left = path_left line.path (s.length + 1) in
    branch-IsSome (s.length == 0) _ _ (_, refl)
      (branch-IsSome (f.id == s.hash) _ _
        (bind-IsSome _ _ (grow_lem _ line _ s.non_last _ free left) (λ r. (_, refl)))
        (bind-IsSome _ _ (grow_lem _ line _ s.non_last _ (free + 1) left) (λ r. (_, refl))))

-- A line that starts with two numbers of fewer than 1024 digits, possibly none, each with a character
-- behind it that is no digit.
pub record IsComplete (line : List ℕ) : Type 0 where
  pub first : List ℕ
  pub first_end : ℕ
  pub second : List ℕ
  pub second_end : ℕ
  pub rest : List ℕ
  pub text : line ≡ first ++ (first_end ∷ (second ++ (second_end ∷ rest)))
  pub first_digits : All (λ c. is_digit c ≡ true) first
  pub first_stop : is_digit first_end ≡ false
  pub first_short : length first < 1024
  pub second_digits : All (λ c. is_digit c ≡ true) second
  pub second_stop : is_digit second_end ≡ false
  pub second_short : length second < 1024

digits_lem :
    (d : List ℕ) (c : ℕ) (rest : List ℕ)
    → All (λ c. is_digit c ≡ true) d
    → is_digit c ≡ false
    → (digits_of (d ++ (c ∷ rest)) ≡ d) × (after_digits (d ++ (c ∷ rest)) ≡ some rest)
unfolding digits_of after_digits
digits_lem [] c rest h stop = (rw stop refl, rw stop refl)
digits_lem (x ∷ d) c rest h stop =
    let k = digits_lem d c rest h.1 stop in (rw h.0 (ap (λ t. x ∷ t) k.0), rw h.0 k.1)

-- A scan that ends within the line.
abbrev IsScanned : List ℕ → List ℕ → Type 0
IsScanned s rest =
    (c : ℕ) × (s ≡ digits_of s ++ (c ∷ rest))
    × All (λ c. is_digit c ≡ true) (digits_of s)
    × (is_digit c ≡ false)

after_digits-IsScanned : (s rest : List ℕ) → after_digits s ≡ some rest → IsScanned s rest
unfolding after_digits digits_of
after_digits-IsScanned [] rest e = absurd (ground (arith, e))
after_digits-IsScanned (x ∷ s) rest e = elim (Bool-cases (is_digit x)) [
  | inl digit ↦
      let k = after_digits-IsScanned s rest (sym (rw digit refl) ∙ e) in
      (k.0, rw digit (ap (λ t. x ∷ t) k.1), rw digit (digit, k.2), k.3)
  | inr stop ↦
      let same : s ≡ rest = ground (arith, stop, e) in
      (x, rw stop (ap (λ t. x ∷ t) same), rw stop tt, stop)
]

-- A chain of partial results that has one.
some_bind :
    {A B : Type 0} (o : Option A) (f : A → Option B) (b : B)
    → (o >>= f) ≡ some b
    → (a : A) × (o ≡ some a) × (f a ≡ some b)
some_bind none f b e = absurd (ground (arith, e))
some_bind (some a) f b e = (a, refl, e)

number_of-short :
    (atoi : List ℕ → ℕ) (d : List ℕ) (n : ℕ) → number_of atoi d ≡ some n → length d < 1024
unfolding number_of
number_of-short atoi d n e = ground (arith, e)

short-number_of :
    (atoi : List ℕ → ℕ) (d : List ℕ) → length d < 1024 → number_of atoi d ≡ some (atoi d)
unfolding number_of
short-number_of atoi d h = ground (arith, h)

split-IsComplete :
    (atoi : List ℕ → ℕ) (line : List ℕ) (l : Line)
    → split_line_on_comma atoi line ≡ some l
    → IsComplete line
unfolding split_line_on_comma
split-IsComplete atoi line l e =
    let a = some_bind _ _ l e in
    let b = some_bind _ _ l a.2 in
    let c = some_bind _ _ l b.2 in
    let d = some_bind _ _ l c.2 in
    let x = after_digits-IsScanned line b.0 b.1 in
    let y = after_digits-IsScanned b.0 d.0 d.1 in
    record {
      first = digits_of line;
      first_end = x.0;
      second = digits_of b.0;
      second_end = y.0;
      rest = d.0;
      text = x.1 ∙ ap (λ t. digits_of line ++ (x.0 ∷ t)) y.1;
      first_digits = x.2;
      first_stop = x.3;
      first_short = number_of-short atoi _ a.0 a.1;
      second_digits = y.2;
      second_stop = y.3;
      second_short = number_of-short atoi _ c.0 c.1;
    }

IsComplete-split :
    (atoi : List ℕ → ℕ) (line : List ℕ) → IsComplete line → IsSome (split_line_on_comma atoi line)
unfolding split_line_on_comma
IsComplete-split atoi line v =
    let tail = v.second ++ (v.second_end ∷ v.rest) in
    let x = digits_lem v.first v.first_end tail v.first_digits v.first_stop in
    let y = digits_lem v.second v.second_end v.rest v.second_digits v.second_stop in
    let e1 =
      ap (number_of atoi) (ap digits_of v.text ∙ x.0)
      ∙ short-number_of atoi v.first v.first_short in
    let e2 = ap after_digits v.text ∙ x.1 in
    let e3 = ap (number_of atoi) y.0 ∙ short-number_of atoi v.second v.second_short in
    rw (e1, e2, e3, y.1) (_, refl)

-- How the reading of these lines ends: with a tree if all are complete, with an access outside a
-- buffer if one is not.
abbrev pub HasRead : List (List ℕ) → Reading → Type 0
HasRead lines (read_to r) = All IsComplete lines
HasRead lines overrun =
    (i : ℕ) × (line : List ℕ) × (get_elem? lines i ≡ some line) × (IsComplete line → ⊥)
HasRead lines unfinished = ⊥

add_lines-HasRead :
    (atoi : List ℕ → ℕ) (lines : List (List ℕ)) (tree : Tree) (free : ℕ)
    → HasRead lines (add_lines atoi tree lines free)
unfolding add_lines add_path grown_to and_then
add_lines-HasRead atoi [] tree free = tt
add_lines-HasRead atoi (line ∷ lines) tree free =
    split (split_line_on_comma atoi line) refl (λ r. add_lines-HasRead atoi lines r.tree r.free)
  where
    later : (r : Reading) → IsComplete line → HasRead lines r → HasRead (line ∷ lines) r
    later (read_to r) v h = (v, h)
    later overrun v h = (suc h.0, h.1, h.2, h.3)
    later unfinished v h = h

    grew :
        (o : Option Copied)
        → IsSome o
        → IsComplete line
        → ((r : Copied) → HasRead lines (add_lines atoi r.tree lines r.free))
        → HasRead (line ∷ lines) (and_then (grown_to o) (λ r. add_lines atoi r.tree lines r.free))
    grew none s v k = absurd (ground (arith, s.1))
    grew (some r) s v k = later (add_lines atoi r.tree lines r.free) v (k r)

    split :
        (o : Option Line)
        → split_line_on_comma atoi line ≡ o
        → ((r : Copied) → HasRead lines (add_lines atoi r.tree lines r.free))
        → let r : Reading = elim o [
          | none ↦ overrun
          | some l ↦ grown_to (add_path_at tree l free)
        ] in
          HasRead (line ∷ lines) (and_then r (λ t. add_lines atoi t.tree lines t.free))
    split none e k = (
      0,
      line,
      refl,
      λ v. let s = IsComplete-split atoi line v in absurd (ground (arith, e, s.1)),
    )
    split (some l) e k =
        grew (add_path_at tree l free) (add_path_at_lem tree l free)
          (split-IsComplete atoi line l e) k

-- Reading a chunk file ends. If each line starts with two numbers of fewer than 1024 digits, with a
-- character behind each that is no digit, it ends with a tree; otherwise it reads or writes outside
-- the line or the buffer for the digits. The loop over the parts of a path never makes more rounds
-- than the path has characters.
pub get_chunks_lem :
    (atoi : List ℕ → ℕ) (lines : List (List ℕ)) (free : ℕ)
    → HasRead lines (get_chunks atoi lines free)
unfolding get_chunks
get_chunks_lem atoi lines free = add_lines-HasRead atoi lines null free
