-- ===== src/Utils/Hash.antt =====
-- web/src/app/utils.js: hashCode. An int32 is its bit pattern, a number below 2 ^ 32; as a key of a
-- map it distinguishes the same values.
use Prim.Native.Char.{code}
use text.Mathlib.TextLemmas.{nil-append, cons-append}
use coop_messenger.Prelude.{
  ℕ, ◌+◌, ◌-◌, ◌*◌, ◌/◌, ◌%◌, ◌<◌, String, ◌≡◌, refl, sym, append_assoc, List, [], ◌∷◌, ◌++◌, foldl,
  arith, ltb, if◌then◌else◌, ◌∙◌, ap,
}
use coop_messenger.Utils.Urls.{◌&◌}

-- 2 ^ 32
abbrev modulus : ℕ
modulus = 4294967296

-- The UTF-16 code units of a character.
abbrev units_of : ℕ → List ℕ
units_of c =
    if ltb c 0x10000
    then c ∷ []
    else (0xD800 + (c - 0x10000) / 1024) ∷ (0xDC00 + (c - 0x10000) % 1024) ∷ []

-- `s.charCodeAt(0)`, `s.charCodeAt(1)`, …
unfoldable pub code_units : String → List ℕ
code_units String.[] = []
code_units (String.◌∷◌ c s) = units_of (code c) ++ code_units s

-- `(hash << 5) - hash + char`, converted to an int32: the shift drops what is above 32 bits.
unfoldable pub hash_step : ℕ → ℕ → ℕ
hash_step hash char = ((hash * 32) % modulus + modulus - hash + char) % modulus

unfoldable pub hash_units : List ℕ → ℕ
unfolding hash_step
hash_units = foldl hash_step 0

unfoldable pub hash_code : String → ℕ
unfolding code_units hash_units
hash_code s = hash_units (code_units s)

-- The value at 31 of the polynomial whose coefficients are the code units.
abbrev pub polynomial : ℕ → List ℕ → ℕ
polynomial acc [] = acc
polynomial acc (c ∷ cs) = polynomial (31 * acc + c) cs

hash_step_lem : (h c : ℕ) → h < 4294967296 → hash_step h c ≡ (31 * h + c) % 4294967296
unfolding hash_step
hash_step_lem h c b = omega arith

hash_step-lt : (h c : ℕ) → hash_step h c < 4294967296
unfolding hash_step
hash_step-lt h c = omega arith

polynomial-mod :
    (a b : ℕ) (cs : List ℕ)
    → a % 4294967296 ≡ b % 4294967296
    → polynomial a cs % 4294967296 ≡ polynomial b cs % 4294967296
polynomial-mod a b [] h = h
polynomial-mod a b (c ∷ cs) h = polynomial-mod (31 * a + c) (31 * b + c) cs (omega arith)

foldl-hash_step :
    (h : ℕ) (cs : List ℕ) → h < 4294967296 → foldl hash_step h cs ≡ polynomial h cs % 4294967296
foldl-hash_step h [] b = omega arith
foldl-hash_step h (c ∷ cs) b =
    foldl-hash_step (hash_step h c) cs (hash_step-lt h c)
    ∙ polynomial-mod (hash_step h c) (31 * h + c) cs (omega (arith, hash_step_lem h c b))

-- The hash of a string is the value at 31 of the polynomial of its code units, modulo 2 ^ 32: the
-- shifts and the wrap-around of each round lose nothing.
hash_code-polynomial : (s : String) → hash_code s ≡ polynomial 0 (code_units s) % 4294967296
unfolding hash_code
hash_code-polynomial s = foldl-hash_step 0 (code_units s) (omega arith)

code_units-append : (s t : String) → code_units (s & t) ≡ code_units s ++ code_units t
unfolding code_units
code_units-append String.[] t = rw nil-append refl
code_units-append (String.◌∷◌ c s) t = rw cons-append (
    ap (λ u. units_of (code c) ++ u) (code_units-append s t)
    ∙ sym (append_assoc (units_of (code c)) (code_units s) (code_units t)))

polynomial-append :
    (acc : ℕ) (xs ys : List ℕ) → polynomial acc (xs ++ ys) ≡ polynomial (polynomial acc xs) ys
polynomial-append acc [] ys = refl
polynomial-append acc (x ∷ xs) ys = polynomial-append (31 * acc + x) xs ys

code_units_between :
    (s m t : String) → code_units (s & m & t) ≡ code_units s ++ (code_units m ++ code_units t)
code_units_between s m t =
    code_units-append s (m & t) ∙ ap (λ u. code_units s ++ u) (code_units-append m t)

polynomial_Aa :
    (acc : ℕ) (ys : List ℕ)
    → polynomial acc (code_units "Aa" ++ ys) ≡ polynomial acc (code_units "BB" ++ ys)
unfolding code_units
polynomial_Aa acc ys = ap (λ a. polynomial a ys) (omega arith)

-- Strings that differ in "Aa" against "BB" have the same hash.
pub hash_code_collision : (s t : String) → hash_code (s & "Aa" & t) ≡ hash_code (s & "BB" & t)
hash_code_collision s t =
    rw
      (
        hash_code-polynomial (s & "Aa" & t),
        hash_code-polynomial (s & "BB" & t),
        code_units_between s "Aa" t,
        code_units_between s "BB" t,
        polynomial-append 0 (code_units s) (code_units "Aa" ++ code_units t),
        polynomial-append 0 (code_units s) (code_units "BB" ++ code_units t),
        polynomial_Aa (polynomial 0 (code_units s)) (code_units t),
      )
      refl
