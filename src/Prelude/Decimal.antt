-- ===== src/Prelude/Decimal.antt =====
-- `Number(s)` and `n.toString()` for natural numbers. `number` is `none`, NaN, on whatever is not a
-- run of decimal digits; the client only converts strings that `toString` made.
use Prim.Native.Char.{code}
use Prim.Native.Nat.{ℕ, zero, suc, ◌+◌, ◌-◌, ◌*◌, ◌/◌, ◌%◌, ◌<◌}
use Prim.Native.String
use Prim.Native.String.{String}
use mathlib.Core.Path.{◌≡◌, refl, ap, ◌∙◌}
use mathlib.Core.Logic.{inl, inr}
use mathlib.Core.Bool.{true, false, ◌&&◌}
use mathlib.Core.Option.{Option, none, some}
use native.Mathlib.Omega.{arith}
use text.Mathlib.TextLemmas.{nil-append, cons-append}
use coop_messenger.Prelude.Tests.{ltb, leb, if◌then◌else◌, Bool-cases}

-- The value of a run of decimal digits.
unfoldable pub digits_value : ℕ → String → Option ℕ
digits_value acc String.[] = some acc
digits_value acc (String.◌∷◌ c s) =
    if leb b'0' (code c) && leb (code c) b'9'
    then digits_value (acc * 10 + (code c - b'0')) s
    else none

unfoldable pub number : String → Option ℕ
unfolding digits_value
number s = digits_value 0 s

unfoldable pub digit : ℕ → String
digit zero = "0"
digit (suc zero) = "1"
digit (suc (suc zero)) = "2"
digit (suc (suc (suc zero))) = "3"
digit (suc (suc (suc (suc zero)))) = "4"
digit (suc (suc (suc (suc (suc zero))))) = "5"
digit (suc (suc (suc (suc (suc (suc zero)))))) = "6"
digit (suc (suc (suc (suc (suc (suc (suc zero))))))) = "7"
digit (suc (suc (suc (suc (suc (suc (suc (suc zero)))))))) = "8"
digit (suc (suc (suc (suc (suc (suc (suc (suc (suc n))))))))) = "9"

-- The digits of `n`, most significant first; `n < fuel` is enough.
unfoldable pub print : ℕ → ℕ → String
unfolding digit
print zero n = ""
print (suc fuel) n = elim (ltb n 10) [
  | true ↦ digit n
  | false ↦ String.◌++◌ (print fuel (n / 10)) (digit (n % 10))
]

unfoldable pub to_string : ℕ → String
unfolding print
to_string n = print (suc n) n

value-digit : (d acc : ℕ) → d < 10 → digits_value acc (digit d) ≡ some (acc * 10 + d)
unfolding digits_value digit
value-digit zero acc h = ground arith
value-digit (suc zero) acc h = ground arith
value-digit (suc (suc zero)) acc h = ground arith
value-digit (suc (suc (suc zero))) acc h = ground arith
value-digit (suc (suc (suc (suc zero)))) acc h = ground arith
value-digit (suc (suc (suc (suc (suc zero))))) acc h = ground arith
value-digit (suc (suc (suc (suc (suc (suc zero)))))) acc h = ground arith
value-digit (suc (suc (suc (suc (suc (suc (suc zero))))))) acc h = ground arith
value-digit (suc (suc (suc (suc (suc (suc (suc (suc zero)))))))) acc h = ground arith
value-digit (suc (suc (suc (suc (suc (suc (suc (suc (suc zero))))))))) acc h = ground arith
value-digit (suc (suc (suc (suc (suc (suc (suc (suc (suc (suc n)))))))))) acc h =
    absurd (omega arith)

value-append :
    (acc v : ℕ) (s t : String)
    → digits_value acc s ≡ some v
    → digits_value acc (String.◌++◌ s t) ≡ digits_value v t
unfolding digits_value
value-append acc v String.[] t h = rw nil-append (ground arith)
value-append acc v (String.◌∷◌ c s) t h =
    rw cons-append (ground (arith, value-append (acc * 10 + (code c - b'0')) v s t))

print_small : (fuel n : ℕ) → n < 10 → print (suc fuel) n ≡ digit n
unfolding print
print_small fuel n h = ground arith

print_big :
    (fuel n : ℕ)
    → ltb n 10 ≡ false
    → print (suc fuel) n ≡ String.◌++◌ (print fuel (n / 10)) (digit (n % 10))
unfolding print
print_big fuel n h = ground arith

value-print : (fuel n : ℕ) → n < fuel → digits_value 0 (print fuel n) ≡ some n
value-print zero n h = elim h [ ]
value-print (suc fuel) n h = elim (Bool-cases (ltb n 10)) [
  | inl small ↦
      rw (print_small fuel n (ground arith)) (value-digit n 0 (ground arith) ∙ ground arith)
  | inr big ↦
      let rest : digits_value 0 (print fuel (n / 10)) ≡ some (n / 10) =
        value-print fuel (n / 10) (ground arith) in
      rw (print_big fuel n big) (
        value-append 0 (n / 10) (print fuel (n / 10)) (digit (n % 10)) rest
        ∙ value-digit (n % 10) (n / 10) (omega arith)
        ∙ ap some (omega arith))
]

-- Reading back what was printed.
pub number-to_string : (n : ℕ) → number (to_string n) ≡ some n
unfolding number to_string
number-to_string n = value-print (suc n) n (omega arith)

prints : to_string 604800 ≡ "604800"
unfolding to_string
prints = refl
