-- ===== src/Mutate/Draw.antt =====
-- Code that draws random numbers and may fault: UR and choose_block_len of fuzzer/afl-fuzz.c as the
-- random stages call them. A fault is a division by zero or an access outside a buffer.
use nfuzzer.Base.{
  ℕ, ◌≤◌, ◌<◌, min, ◌≡◌, refl, arith, Bool, true, false, ◌||◌, leb, ◌==◌, if◌then◌else◌, Option,
  none, some,
}
use nfuzzer.Havoc.Blocks.{choose_block_len, ur, choose_block_len-bounds, blk_xl}

-- `random()` with the state that it works on, and what choose_block_len reads.
pub record Source (G : Type 0) : Type 0 where
  pub random : G → ℕ × G
  pub queue_cycle : ℕ
  pub run_over10m : Bool

-- `none` is a fault.
abbrev pub Draw : Type 0 → Type 0 → Type 0
Draw G A = G → Option (A × G)

-- `return`
unfoldable pub give : {G A : Type 0} → A → Draw G A
give a g = some (a, g)

unfoldable pub fault : {G A : Type 0} → Draw G A
fault g = none

infixl 5 ◌>>=◌
unfoldable pub ◌>>=◌ : {G A B : Type 0} → Draw G A → (A → Draw G B) → Draw G B
◌>>=◌ m f g = elim (m g) [ none ↦ none | some (a, g') ↦ f a g' ]

-- UR: `random() % limit`
unfoldable pub draw : {G : Type 0} → Source G → ℕ → Draw G ℕ
draw src limit g = let (r, g') = src.random g in if limit == 0 then none else some (ur r limit, g')

-- choose_block_len, which draws two or three numbers.
unfoldable pub block_len : {G : Type 0} → Source G → ℕ → Draw G ℕ
block_len src limit g =
    let rlim = if src.run_over10m then min src.queue_cycle 3 else 1 in
    let (first, g1) = src.random g in
    let (second, g2) = if leb 2 (ur first rlim) then src.random g1 else (0, g1) in
    let (third, g3) = src.random g2 in
    if rlim == 0 || limit == 0
    then none
    else some (choose_block_len src.queue_cycle src.run_over10m limit first second third, g3)

abbrev pub Holds : {G A : Type 0} → (A → Type 0) → Option (A × G) → Type 0
Holds P none = ⊥
Holds P (some (a, g)) = P a

-- The code does not fault, and what it returns satisfies P, whatever is drawn.
pub record Ensures {G A : Type 0} (P : A → Type 0) (m : Draw G A) : Type 0 where
  pub at : (g : G) → Holds P (m g)

-- What a run from one state gives.
pub Ensures-run :
    {G A : Type 0} {P : A → Type 0} {m : Draw G A}
    → Ensures P m
    → (g : G) → (a : A) × (g' : G) × (m g ≡ some (a, g')) × P a
Ensures-run {G} {A} {P} {m} e g = go (m g) refl (e.at g)
  where
    go :
        (r : Option (A × G)) → m g ≡ r → Holds P r → (a : A) × (g' : G) × (m g ≡ some (a, g')) × P a
    go none q h = absurd h
    go (some (a, g')) q h = (a, g', q, h)

pub Ensures-give : {G A : Type 0} {P : A → Type 0} (a : A) → P a → Ensures {G = G} P (give a)
unfolding give
Ensures-give a h = record { at = λ g. h }

pub Ensures-bind :
    {G A B : Type 0} {P : A → Type 0} {Q : B → Type 0} {m : Draw G A} {f : A → Draw G B}
    → Ensures P m
    → ((a : A) → P a → Ensures Q (f a))
    → Ensures Q (m >>= f)
unfolding ◌>>=◌
Ensures-bind {G} {A} {B} {P} {Q} {m} {f} e k = record { at = λ g. go (m g) (e.at g) }
  where
    go : (r : Option (A × G)) → Holds P r → Holds Q (elim r [ none ↦ none | some (a, g') ↦ f a g' ])
    go none h = h
    go (some (a, g')) h = (k a h).at g'

pub Ensures-weaken :
    {G A : Type 0} {P Q : A → Type 0} {m : Draw G A}
    → ((a : A) → P a → Q a)
    → Ensures P m
    → Ensures Q m
Ensures-weaken {G} {A} {P} {Q} {m} k e = record { at = λ g. go (m g) (e.at g) }
  where
    go : (r : Option (A × G)) → Holds P r → Holds Q r
    go none h = h
    go (some (a, g')) h = k a h

pub Ensures-elim :
    {G A : Type 0} {P : A → Type 0} (b : Bool) {x y : Draw G A}
    → (b ≡ true → Ensures P x)
    → (b ≡ false → Ensures P y)
    → Ensures P (elim b [ true ↦ x | false ↦ y ])
Ensures-elim true h k = h refl
Ensures-elim false h k = k refl

block_len_range :
    (queue_cycle : ℕ) (run_over10m : Bool) (limit first second third : ℕ)
    → 0 < limit
    → 0 < queue_cycle
    → let n = choose_block_len queue_cycle run_over10m limit first second third in
      (1 ≤ n) × (n ≤ limit) × (n ≤ blk_xl)
block_len_range queue_cycle run_over10m limit first second third h started =
    ground
      (arith, choose_block_len-bounds queue_cycle run_over10m limit first second third h started)

module _ {G : Type 0} (src : Source G) where
  pub draw-lt : (limit : ℕ) → 0 < limit → Ensures (λ r. r < limit) (draw src limit)
  unfolding draw
  draw-lt limit h = record { at = λ g. ground arith }

  no_division :
      (limit : ℕ)
      → 0 < src.queue_cycle
      → 0 < limit
      → ((if src.run_over10m then min src.queue_cycle 3 else 1) == 0 || limit == 0) ≡ false
  no_division limit started h = ground arith

  pub block_len-bounds :
      (limit : ℕ)
      → 0 < src.queue_cycle
      → 0 < limit
      → Ensures (λ n. (1 ≤ n) × (n ≤ limit) × (n ≤ blk_xl)) (block_len src limit)
  unfolding block_len
  block_len-bounds limit started h = record {
    at = λ g.
        rw (no_division limit started h)
          (block_len_range src.queue_cycle src.run_over10m limit _ _ _ h started);
  }
