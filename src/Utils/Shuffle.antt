-- ===== src/Utils/Shuffle.antt =====
-- web/src/app/utils.js: shuffle. `random index` is `Math.floor(Math.random() * (index + 1))` in the round of
-- the index; an element that is not there is `none`.
use mathlib.Core.Option.{some_inj, none-ne-some}
use coop_messenger.Prelude.{
  ℕ, zero, suc, ◌+◌, ◌-◌, ◌≡◌, refl, ◌∙◌, Bool, Option, none, some, List, [], ◌∷◌, length, count,
  if◌then◌else◌, arith, Option-cases, inl, inr,
}

module _ {ℓ} {A : Type ℓ} where
  -- `xs[i]`
  abbrev pub at : List A → ℕ → Option A
  at [] i = none
  at (x ∷ xs) zero = some x
  at (x ∷ xs) (suc i) = at xs i

  -- `xs[i] = x`, within the array
  abbrev pub set : ℕ → A → List A → List A
  set i x [] = []
  set zero x (y ∷ xs) = x ∷ xs
  set (suc i) x (y ∷ xs) = y ∷ set i x xs

  -- `[xs[i], xs[j]] = [xs[j], xs[i]]`, within the array
  unfoldable pub swap : ℕ → ℕ → List A → List A
  swap i j xs = elim (at xs i) [
    | none ↦ xs
    | some a ↦ elim (at xs j) [ none ↦ xs | some b ↦ set j a (set i b xs) ]
  ]

  -- The rounds from an index down to 1.
  unfoldable pub shuffle_from : (ℕ → ℕ) → ℕ → List A → List A
  unfolding swap
  shuffle_from random zero xs = xs
  shuffle_from random (suc index) xs =
      shuffle_from random index (swap (suc index) (random (suc index)) xs)

  unfoldable pub shuffle : (ℕ → ℕ) → List A → List A
  unfolding shuffle_from
  shuffle random xs = shuffle_from random (length xs - 1) xs

  -- Setting one element changes a count by what was there and what comes.
  count-set :
      (p : A → Bool) (i : ℕ) (x y : A) (xs : List A)
      → at xs i ≡ some y
      → count p (set i x xs) + (if p y then 1 else 0) ≡ count p xs + (if p x then 1 else 0)
  count-set p i x y [] h = absurd (none-ne-some y h)
  count-set p zero x y (z ∷ xs) h = rw (some_inj.0 h) (omega arith)
  count-set p (suc i) x y (z ∷ xs) h = omega (arith, count-set p i x y xs h)

  -- What stands at `j` after the first of the two assignments is what stood there, or what came.
  at-set :
      (i j : ℕ) (a b : A) (xs : List A)
      → at xs i ≡ some a
      → at xs j ≡ some b
      → at (set i b xs) j ≡ some b
  at-set i j a b [] h k = absurd (none-ne-some a h)
  at-set zero zero a b (z ∷ xs) h k = refl
  at-set zero (suc j) a b (z ∷ xs) h k = k
  at-set (suc i) zero a b (z ∷ xs) h k = k
  at-set (suc i) (suc j) a b (z ∷ xs) h k = at-set i j a b xs h k

  count-swap : (p : A → Bool) (i j : ℕ) (xs : List A) → count p (swap i j xs) ≡ count p xs
  unfolding swap
  count-swap p i j xs = elim (Option-cases (at xs i)) [
    | inl h ↦ rw (swap, h) refl
    | inr (a, h) ↦ elim (Option-cases (at xs j)) [
      | inl k ↦ rw (swap, h, k) refl
      | inr (b, k) ↦
          rw (swap, h, k)
            (omega (
              arith,
              count-set p j a b (set i b xs) (at-set i j a b xs h k),
              count-set p i b a xs h,
            ))
    ]
  ]

  count-shuffle_from :
      (p : A → Bool) (random : ℕ → ℕ) (index : ℕ) (xs : List A)
      → count p (shuffle_from random index xs) ≡ count p xs
  unfolding shuffle_from
  count-shuffle_from p random zero xs = refl
  count-shuffle_from p random (suc index) xs =
      count-shuffle_from p random index (swap (suc index) (random (suc index)) xs)
      ∙ count-swap p (suc index) (random (suc index)) xs

  -- Whatever the random numbers are, the shuffled array has the same elements: as many pass any test.
  count-shuffle :
      (p : A → Bool) (random : ℕ → ℕ) (xs : List A) → count p (shuffle random xs) ≡ count p xs
  unfolding shuffle
  count-shuffle p random xs = count-shuffle_from p random (length xs - 1) xs
