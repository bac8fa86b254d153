-- ===== src/Table/Order.antt =====
-- `orderBy("time")` of Dexie, as the program uses it: the rows of a table by ascending time.
use coop_messenger.Prelude.{
  ℕ, ◌+◌, ◌≡◌, refl, ap, ◌∙◌, Bool, true, ◌&&◌, List, [], ◌∷◌, ◌++◌, all, all-append, all-filter,
  all-reverse, count, filter, reverse, reverse-cons, leb, arith, if◌then◌else◌,
}
use coop_messenger.Types.{Message}

-- No later element is older.
abbrev pub ascending : List Message → Bool
ascending [] = true
ascending (m ∷ ms) = all (λ n. leb m.time n.time) ms && ascending ms

-- No later element is newer.
abbrev pub descending : List Message → Bool
descending [] = true
descending (m ∷ ms) = all (λ n. leb n.time m.time) ms && descending ms

-- What Dexie documents: the same rows, in order.
pub record IsTimeOrder (order : List Message → List Message) : Type 0 where
  pub ordered : (ms : List Message) → ascending (order ms) ≡ true
  pub same : (p : Message → Bool) (ms : List Message) → count p (order ms) ≡ count p ms

pub filter-ascending :
    (p : Message → Bool) (ms : List Message) → ascending ms ≡ true → ascending (filter p ms) ≡ true
filter-ascending p [] h = refl
filter-ascending p (m ∷ ms) h =
    ground (arith, filter-ascending p ms, all-filter (λ (n : Message). leb m.time n.time) p ms)

pub filter-descending :
    (p : Message → Bool) (ms : List Message)
    → descending ms ≡ true
    → descending (filter p ms) ≡ true
filter-descending p [] h = refl
filter-descending p (m ∷ ms) h =
    ground (arith, filter-descending p ms, all-filter (λ (n : Message). leb n.time m.time) p ms)

-- Every element of the second list is at most as new as every one of the first.
abbrev pub none_newer : List Message → List Message → Bool
none_newer xs ys = all (λ x. all (λ (y : Message). leb y.time x.time) ys) xs

descending-with :
    (xs : List Message) (y : Message)
    → descending xs ≡ true
    → all (λ x. leb y.time x.time) xs ≡ true
    → descending (xs ++ y ∷ []) ≡ true
descending-with [] y h k = refl
descending-with (x ∷ xs) y h k =
    ground
      (arith, descending-with xs y, all-append (λ (n : Message). leb n.time x.time) xs (y ∷ []))

ascending-with :
    (xs : List Message) (y : Message)
    → ascending xs ≡ true
    → all (λ x. leb x.time y.time) xs ≡ true
    → ascending (xs ++ y ∷ []) ≡ true
ascending-with [] y h k = refl
ascending-with (x ∷ xs) y h k =
    ground (arith, ascending-with xs y, all-append (λ (n : Message). leb x.time n.time) xs (y ∷ []))

pub reverse-descending : (ms : List Message) → ascending ms ≡ true → descending (reverse ms) ≡ true
reverse-descending [] h = refl
reverse-descending (m ∷ ms) h = rw (reverse-cons m ms) (
    descending-with (reverse ms) m (reverse-descending ms (ground arith))
      (all-reverse (λ (n : Message). leb m.time n.time) ms ∙ ground arith))

pub reverse-ascending : (ms : List Message) → descending ms ≡ true → ascending (reverse ms) ≡ true
reverse-ascending [] h = refl
reverse-ascending (m ∷ ms) h = rw (reverse-cons m ms) (
    ascending-with (reverse ms) m (reverse-ascending ms (ground arith))
      (all-reverse (λ (n : Message). leb n.time m.time) ms ∙ ground arith))

pub descending-append :
    (xs ys : List Message)
    → descending (xs ++ ys) ≡ true
    → (descending xs ≡ true) × (none_newer xs ys ≡ true)
descending-append [] ys h = (refl, refl)
descending-append (x ∷ xs) ys h =
    ground (arith, descending-append xs ys, all-append (λ (n : Message). leb n.time x.time) xs ys)

-- An implementation, for the tests.
insert : Message → List Message → List Message
insert m [] = m ∷ []
insert m (n ∷ ms) = if leb m.time n.time then m ∷ n ∷ ms else n ∷ insert m ms

unfoldable pub sort : List Message → List Message
unfolding insert
sort [] = []
sort (m ∷ ms) = insert m (sort ms)

count-insert :
    (p : Message → Bool) (m : Message) (ms : List Message)
    → count p (insert m ms) ≡ (if p m then 1 else 0) + count p ms
unfolding insert
count-insert p m [] = refl
count-insert p m (n ∷ ms) = ground (arith, count-insert p m ms)

all-insert :
    (k : ℕ) (m : Message) (ms : List Message)
    → all (λ n. leb k n.time) (insert m ms) ≡ (leb k m.time && all (λ n. leb k n.time) ms)
unfolding insert
all-insert k m [] = refl
all-insert k m (n ∷ ms) = ground (arith, all-insert k m ms)

all-later :
    (j k : ℕ) (ms : List Message)
    → leb j k ≡ true
    → all (λ n. leb k n.time) ms ≡ true
    → all (λ n. leb j n.time) ms ≡ true
all-later j k [] h a = refl
all-later j k (m ∷ ms) h a = ground (arith, all-later j k ms)

insert-ascending :
    (m : Message) (ms : List Message) → ascending ms ≡ true → ascending (insert m ms) ≡ true
unfolding insert
insert-ascending m [] h = refl
insert-ascending m (n ∷ ms) h =
    ground (arith, insert-ascending m ms, all-insert n.time m ms, all-later m.time n.time ms)

pub sort-IsTimeOrder : IsTimeOrder sort
unfolding sort
sort-IsTimeOrder = record { ordered = ordered; same = same }
  where
    ordered : (ms : List Message) → ascending (sort ms) ≡ true
    ordered [] = refl
    ordered (m ∷ ms) = insert-ascending m (sort ms) (ordered ms)

    same : (p : Message → Bool) (ms : List Message) → count p (sort ms) ≡ count p ms
    same p [] = refl
    same p (m ∷ ms) = count-insert p m (sort ms) ∙ ap (λ n. (if p m then 1 else 0) + n) (same p ms)
