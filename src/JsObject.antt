-- ===== src/JsObject.antt =====
-- A plain JavaScript object used as a dictionary, `{}`: `key in obj`, `obj[key]`, `obj[key] = v`,
-- `Object.entries`. Own keys that are array indices come first, in ascending order, then the others
-- in the order in which they were first written. `in` also sees what every object inherits.
use Prim.Native.Char.{code}
use coop_messenger.Prelude.Decimal.{digits_value}
use coop_messenger.Prelude.{
  ℕ, String, ◌≡◌, refl, Bool, true, false, ◌||◌, Option, none, some, List, [], ◌∷◌, arith, eq_iff,
  ◌===◌, ltb, leb, includes, if◌then◌else◌, Bool-cases, inl, inr,
}

-- The names that `Object.prototype` answers to.
abbrev pub inherited : List String
inherited =
    "constructor" ∷ "__defineGetter__" ∷ "__defineSetter__" ∷ "hasOwnProperty" ∷ "__lookupGetter__"
    ∷ "__lookupSetter__" ∷ "isPrototypeOf" ∷ "propertyIsEnumerable" ∷ "toString" ∷ "valueOf"
    ∷ "__proto__" ∷ "toLocaleString" ∷ []

unfoldable pub is_inherited : String → Bool
is_inherited k = includes k inherited

-- An array index is a canonical decimal below 2 ^ 32 - 1.
unfoldable pub array_index : String → Option ℕ
unfolding digits_value
array_index String.[] = none
array_index (String.◌∷◌ c s) =
    if (String.◌∷◌ c s) === "0"
    then some 0
    else if leb b'1' (code c)
    then (elim (digits_value 0 (String.◌∷◌ c s)) [
      | none ↦ none
      | some n ↦ if ltb n 4294967295 then some n else none
    ])
    else none

-- Whether a new key goes in front of an old one.
unfoldable pub goes_before : Option ℕ → Option ℕ → Bool
goes_before (some i) (some j) = ltb i j
goes_before (some i) none = true
goes_before none j = false

module _ {ℓ} {V : Type ℓ} where
  -- An own property.
  unfoldable pub lookup : String → List (String × V) → Option V
  lookup k [] = none
  lookup k ((j, v) ∷ m) = if j === k then some v else lookup k m

  unfoldable pub has_own : String → List (String × V) → Bool
  has_own k [] = false
  has_own k ((j, v) ∷ m) = j === k || has_own k m

  unfoldable pub replace : String → V → List (String × V) → List (String × V)
  replace k v [] = []
  replace k v ((j, w) ∷ m) = if j === k then (j, v) ∷ m else (j, w) ∷ replace k v m

  unfoldable pub place : String → V → List (String × V) → List (String × V)
  place k v [] = (k, v) ∷ []
  place k v ((j, w) ∷ m) =
      if goes_before (array_index k) (array_index j)
      then (k, v) ∷ (j, w) ∷ m
      else (j, w) ∷ place k v m

  -- `obj[key] = v`, for a key that is not inherited.
  unfoldable pub assign : String → V → List (String × V) → List (String × V)
  assign k v m = if has_own k m then replace k v m else place k v m

  -- `key in obj`
  unfoldable pub in_object : String → List (String × V) → Bool
  in_object k m = has_own k m || is_inherited k

  lookup-replace :
      (k j : String) (v : V) (m : List (String × V))
      → has_own k m ≡ true
      → lookup j (replace k v m) ≡ (if k === j then some v else lookup j m)
  unfolding lookup replace has_own
  lookup-replace k j v ((i, w) ∷ m) h =
      ground (arith, eq_iff k j, eq_iff i k, eq_iff i j, lookup-replace k j v m)
  lookup-replace k j v [] h = ground arith

  lookup-place :
      (k j : String) (v : V) (m : List (String × V))
      → has_own k m ≡ false
      → lookup j (place k v m) ≡ (if k === j then some v else lookup j m)
  unfolding lookup place has_own
  lookup-place k j v [] h = refl
  lookup-place k j v ((i, w) ∷ m) h =
      ground (arith, eq_iff k j, eq_iff i k, eq_iff i j, lookup-place k j v m)

  -- A read after a write.
  pub lookup-assign :
      (k j : String) (v : V) (m : List (String × V))
      → lookup j (assign k v m) ≡ (if k === j then some v else lookup j m)
  unfolding assign
  lookup-assign k j v m = elim (Bool-cases (has_own k m)) [
    | inl old ↦ rw old (lookup-replace k j v m old)
    | inr new ↦ rw new (lookup-place k j v m new)
  ]

  pub has_own-lookup :
      (k : String) (m : List (String × V))
      → has_own k m ≡ (elim (lookup k m) [ none ↦ false | some v ↦ true ])
  unfolding has_own lookup
  has_own-lookup k [] = refl
  has_own-lookup k ((j, v) ∷ m) = ground (arith, has_own-lookup k m)
