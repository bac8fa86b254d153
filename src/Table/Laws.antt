-- ===== src/Table/Laws.antt =====
-- What follows from the interface of a table: reads after deletions and changes.
use coop_messenger.Prelude.{
  ◌≤◌, String, ◌≡◌, refl, Bool, false, not, ◌&&◌, Option, none, some, List, [], ◌∷◌, map, filter,
  find, any, count, keep, arith, eq_iff, ◌===◌, if◌then◌else◌, ◌∙◌, sym, ◌+◌,
}
use mathlib.Core.Option
use coop_messenger.Table.{Table}

module _ {R : Type 0} (key : R → String) where
  find_key : (k : String) (l : List R) (r : R) → find (λ x. key x === k) l ≡ some r → key r ≡ k
  find_key k [] r h = ground arith
  find_key k (x ∷ l) r h = ground (arith, eq_iff (key x) k, find_key k l r)

  find-filter_unique :
      (p : R → Bool) (k : String) (l : List R)
      → count (λ r. key r === k) l ≤ 1
      → find (λ x. key x === k) (filter p l) ≡ keep p (find (λ x. key x === k) l)
  find-filter_unique p k [] h = refl
  find-filter_unique p k (x ∷ l) h = ground (arith, find-filter_unique p k l, find_absent l)
    where
      find_absent :
          (l : List R)
          → count (λ r. key r === k) l ≡ 0
          → find (λ x. key x === k) (filter p l) ≡ none
      find_absent [] h = refl
      find_absent (x ∷ l) h = ground (arith, find_absent l)

  find-map :
      (f : R → R) (k : String) (l : List R)
      → ((r : R) → key (f r) ≡ key r)
      → find (λ x. key x === k) (map f l) ≡ Option.map f (find (λ x. key x === k) l)
  find-map f k [] h = refl
  find-map f k (x ∷ l) h = ground (arith, h x, find-map f k l h)

  any_unique :
      (p : R → Bool) (k : String) (l : List R)
      → count (λ r. key r === k) l ≤ 1
      → any (λ x. key x === k && p x) l
        ≡ (elim (find (λ x. key x === k) l) [ none ↦ false | some r ↦ p r ])
  any_unique p k [] h = refl
  any_unique p k (x ∷ l) h = ground (arith, any_unique p k l, any_absent l)
    where
      any_absent :
          (l : List R) → count (λ r. key r === k) l ≡ 0 → any (λ x. key x === k && p x) l ≡ false
      any_absent [] h = refl
      any_absent (x ∷ l) h = ground (arith, any_absent l)

  count-absent_list :
      (p : R → Bool) (k : String) (l : List R)
      → find (λ x. key x === k) l ≡ none
      → count (λ r. not (key r === k) && p r) l ≡ count p l
  count-absent_list p k [] h = refl
  count-absent_list p k (x ∷ l) h = ground (arith, count-absent_list p k l)

module _ {R : Type 0} {key : R → String} (t : Table R key) where
  -- The row under a key has that key.
  pub get-key : (k : String) (s : t.Rows) (r : R) → t.get k s ≡ some r → key r ≡ k
  get-key k s r h = find_key key k (t.to_array s) r (sym (t.get_find k s) ∙ h)

  pub get-delete_where :
      (k : String) (p : R → Bool) (s : t.Rows)
      → t.get k (t.delete_where p s) ≡ keep (λ r. not (p r)) (t.get k s)
  get-delete_where k p s =
      rw (t.get_find k (t.delete_where p s), t.to_array-delete_where p s, t.get_find k s)
        (find-filter_unique key (λ r. not (p r)) k (t.to_array s) (t.unique k s))

  pub get-delete :
      (k j : String) (s : t.Rows) → t.get k (t.delete j s) ≡ (if j === k then none else t.get k s)
  get-delete k j s =
      rw (t.get_find k (t.delete j s), t.to_array-delete j s)
        (ground (
          arith,
          find-filter_unique key (λ (r : R). not (key r === j)) k (t.to_array s) (t.unique k s),
          t.get_find k s,
          keep_lem (t.get k s) (get-key k s),
        ))
    where
      keep_lem :
          (o : Option R)
          → ((r : R) → o ≡ some r → key r ≡ k)
          → keep (λ r. not (key r === j)) o ≡ (if j === k then none else o)
      keep_lem none h = ground arith
      keep_lem (some r) h = ground (arith, h r refl, eq_iff j k, eq_iff (key r) j)

  pub get-modify_where :
      (k : String) (p : R → Bool) (f : R → R) (s : t.Rows)
      → ((r : R) → key (f r) ≡ key r)
      → t.get k (t.modify_where p f s) ≡ Option.map (λ r. if p r then f r else r) (t.get k s)
  get-modify_where k p f s h =
      rw (t.get_find k (t.modify_where p f s), t.to_array-modify_where p f s h, t.get_find k s)
        (find-map key (λ r. if p r then f r else r) k (t.to_array s) (λ r. ground (arith, h r)))

  pub get-update :
      (k j : String) (f : R → R) (s : t.Rows)
      → ((r : R) → key (f r) ≡ key r)
      → t.get k (t.update j f s) ≡ (if j === k then Option.map f (t.get k s) else t.get k s)
  get-update k j f s h =
      rw (t.get_find k (t.update j f s), t.to_array-update j f s h)
        (ground (
          arith,
          find-map key (λ (r : R). if key r === j then f r else r) k (t.to_array s)
              (λ r. ground (arith, h r)),
          t.get_find k s,
          map_lem (t.get k s) (get-key k s),
        ))
    where
      map_lem :
          (o : Option R)
          → ((r : R) → o ≡ some r → key r ≡ k)
          → Option.map (λ r. if key r === j then f r else r) o
            ≡ (if j === k then Option.map f o else o)
      map_lem none h = ground arith
      map_lem (some r) h = ground (arith, h r refl, eq_iff j k, eq_iff (key r) j)

  -- The listed rows with a key are the row that `get` gives.
  pub any-to_array :
      (p : R → Bool) (k : String) (s : t.Rows)
      → any (λ r. key r === k && p r) (t.to_array s)
        ≡ (elim (t.get k s) [ none ↦ false | some r ↦ p r ])
  any-to_array p k s = rw (t.get_find k s) (any_unique key p k (t.to_array s) (t.unique k s))

  -- With no row under the key, to leave it out of a count changes nothing.
  count-absent :
      (p : R → Bool) (k : String) (s : t.Rows)
      → t.get k s ≡ none
      → count (λ r. not (key r === k) && p r) (t.to_array s) ≡ count p (t.to_array s)
  count-absent p k s h = count-absent_list key p k (t.to_array s) (sym (t.get_find k s) ∙ h)

  -- A row under a new key is counted with the others.
  pub count-put_fresh :
      (p : R → Bool) (r : R) (s : t.Rows)
      → t.get (key r) s ≡ none
      → count p (t.to_array (t.put r s)) ≡ (if p r then 1 else 0) + count p (t.to_array s)
  count-put_fresh p r s h = t.count-put p r s ∙ rw (count-absent p (key r) s h) refl
