-- ===== src/Table.antt =====
-- A Dexie table, as the program uses it: rows of type `R` under a unique string key. Dexie is not
-- part of this repository, so a table is an interface: its operations and what its documentation
-- says of them. `toArray()` lists the rows, and the other reads are described through it.
pub mod Assoc
pub mod Laws
pub mod Order
use coop_messenger.Prelude.{
  ℕ, ◌+◌, ◌≤◌, String, ◌≡◌, Bool, not, ◌&&◌, Option, none, some, List, map, foldl, filter, find,
  count, ◌===◌, if◌then◌else◌,
}

pub record Table (R : Type 0) (key : R → String) : Type 1 where
  pub Rows : Type 0
  pub empty : Rows
  pub to_array : Rows → List R
  pub get : String → Rows → Option R
  pub put : R → Rows → Rows
  pub add : R → Rows → Option Rows
  pub bulk_put : List R → Rows → Rows
  pub update : String → (R → R) → Rows → Rows
  pub delete : String → Rows → Rows
  pub delete_where : (R → Bool) → Rows → Rows
  pub modify_where : (R → Bool) → (R → R) → Rows → Rows
  -- The documented behaviour.
  pub get_find : (k : String) (s : Rows) → get k s ≡ find (λ r. key r === k) (to_array s)
  pub unique : (k : String) (s : Rows) → count (λ r. key r === k) (to_array s) ≤ 1
  pub get-put :
      (k : String) (r : R) (s : Rows) → get k (put r s) ≡ (if key r === k then some r else get k s)
  -- `put` replaces the row with the same key, and leaves the others.
  pub count-put :
      (p : R → Bool) (r : R) (s : Rows)
      → count p (to_array (put r s))
        ≡ (if p r then 1 else 0) + count (λ x. not (key x === key r) && p x) (to_array s)
  -- `add` fails on a key that is taken.
  pub add_lem :
      (r : R) (s : Rows) → add r s ≡ elim (get (key r) s) [ none ↦ some (put r s) | some x ↦ none ]
  pub bulk_put_lem : (rs : List R) (s : Rows) → bulk_put rs s ≡ foldl (λ t r. put r t) s rs
  pub to_array-delete :
      (k : String) (s : Rows) → to_array (delete k s) ≡ filter (λ r. not (key r === k)) (to_array s)
  pub to_array-delete_where :
      (p : R → Bool) (s : Rows) → to_array (delete_where p s) ≡ filter (λ r. not (p r)) (to_array s)
  -- A change that leaves the keys alone is made in place.
  pub to_array-modify_where :
      (p : R → Bool) (f : R → R) (s : Rows)
      → ((r : R) → key (f r) ≡ key r)
      → to_array (modify_where p f s) ≡ map (λ r. if p r then f r else r) (to_array s)
  pub to_array-update :
      (k : String) (f : R → R) (s : Rows)
      → ((r : R) → key (f r) ≡ key r)
      → to_array (update k f s) ≡ map (λ r. if key r === k then f r else r) (to_array s)
