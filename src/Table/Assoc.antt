-- ===== src/Table/Assoc.antt =====
-- A table as a list of rows with distinct keys, newest first: it shows that the interface can be
-- implemented, and runs in the tests.
use coop_messenger.Prelude.{
  ◌+◌, ◌≤◌, String, ◌≡◌, refl, Bool, not, ◌&&◌, none, some, List, [], ◌∷◌, map, foldl, filter, find,
  count, arith, eq_iff, count-filter, count-filter-le, ◌===◌, if◌then◌else◌,
}
use coop_messenger.Table.{Table}

module _ {R : Type 0} (key : R → String) where
  abbrev pub HasDistinctKeys : List R → Type 0
  HasDistinctKeys l = (k : String) → count (λ r. key r === k) l ≤ 1

  abbrev pub Rows : Type 0
  Rows = (l : List R) × HasDistinctKeys l

  abbrev pub without : String → List R → List R
  without k = filter (λ x. not (key x === k))

  count-without : (k : String) (l : List R) → count (λ r. key r === k) (without k l) ≡ 0
  count-without k [] = refl
  count-without k (x ∷ l) = ground (arith, count-without k l)

  pub filter-HasDistinctKeys :
      (p : R → Bool) (l : List R) → HasDistinctKeys l → HasDistinctKeys (filter p l)
  filter-HasDistinctKeys p l h k = omega (arith, h k, count-filter-le (λ (r : R). key r === k) p l)

  pub put-HasDistinctKeys :
      (r : R) (l : List R) → HasDistinctKeys l → HasDistinctKeys (r ∷ without (key r) l)
  put-HasDistinctKeys r l h k = ground (
    arith,
    eq_iff (key r) k,
    count-without k l,
    h k,
    count-filter-le (λ (x : R). key x === k) (λ x. not (key x === key r)) l,
  )

  -- A change of a row that would change its key is not made.
  abbrev pub change : (R → Bool) → (R → R) → R → R
  change p f r = if p r && (key (f r) === key r) then f r else r

  count-change :
      (p : R → Bool) (f : R → R) (k : String) (l : List R)
      → count (λ r. key r === k) (map (change p f) l) ≡ count (λ r. key r === k) l
  count-change p f k [] = refl
  count-change p f k (x ∷ l) = ground (arith, eq_iff (key (f x)) (key x), count-change p f k l)

  pub change-HasDistinctKeys :
      (p : R → Bool) (f : R → R) (l : List R)
      → HasDistinctKeys l
      → HasDistinctKeys (map (change p f) l)
  change-HasDistinctKeys p f l h k = omega (arith, h k, count-change p f k l)

  find-without :
      (k j : String) (s : List R)
      → find (λ x. key x === k) (without j s)
        ≡ (if j === k then none else find (λ x. key x === k) s)
  find-without k j [] = ground arith
  find-without k j (x ∷ s) =
      ground (arith, eq_iff j k, eq_iff (key x) k, eq_iff (key x) j, find-without k j s)

  pub get-put :
      (k : String) (r : R) (s : List R)
      → find (λ x. key x === k) (r ∷ without (key r) s)
        ≡ (if key r === k then some r else find (λ x. key x === k) s)
  get-put k r s = ground (arith, find-without k (key r) s)

  pub count-put :
      (p : R → Bool) (r : R) (s : List R)
      → count p (r ∷ without (key r) s)
        ≡ (if p r then 1 else 0) + count (λ x. not (key x === key r) && p x) s
  count-put p r s = ground (arith, count-filter p (λ x. not (key x === key r)) s)

  pub map-change :
      (p : R → Bool) (f : R → R) (l : List R)
      → ((r : R) → key (f r) ≡ key r)
      → map (change p f) l ≡ map (λ r. if p r then f r else r) l
  map-change p f [] h = refl
  map-change p f (x ∷ l) h = ground (arith, h x, eq_iff (key (f x)) (key x), map-change p f l h)

  abbrev pub put_row : R → Rows → Rows
  put_row r (l, h) = (r ∷ without (key r) l, put-HasDistinctKeys r l h)

  abbrev pub filter_rows : (R → Bool) → Rows → Rows
  filter_rows p (l, h) = (filter p l, filter-HasDistinctKeys p l h)

  abbrev pub change_rows : (R → Bool) → (R → R) → Rows → Rows
  change_rows p f (l, h) = (map (change p f) l, change-HasDistinctKeys p f l h)

  pub empty-HasDistinctKeys : HasDistinctKeys []
  empty-HasDistinctKeys k = omega arith

  abbrev pub assoc_table : Table R key
  assoc_table = record {
    Rows = Rows;
    empty = ([], empty-HasDistinctKeys);
    to_array = λ s. s.0;
    get = λ k s. find (λ x. key x === k) s.0;
    put = put_row;
    add =
        λ r s. elim (find (λ x. key x === key r) s.0) [ none ↦ some (put_row r s) | some x ↦ none ];
    bulk_put = λ rs s. foldl (λ t r. put_row r t) s rs;
    update = λ k. change_rows (λ r. key r === k);
    delete = λ k. filter_rows (λ x. not (key x === k));
    delete_where = λ p. filter_rows (λ r. not (p r));
    modify_where = change_rows;
    get_find = λ k s. refl;
    unique = λ k s. s.1 k;
    get-put = λ k r s. get-put k r s.0;
    count-put = λ p r s. count-put p r s.0;
    add_lem = λ r s. refl;
    bulk_put_lem = λ rs s. refl;
    to_array-delete = λ k s. refl;
    to_array-delete_where = λ p s. refl;
    to_array-modify_where = λ p f s. map-change p f s.0;
    to_array-update = λ k f s. map-change (λ r. key r === k) f s.0;
  }
