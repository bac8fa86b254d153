-- ===== src/Prelude/Text.antt =====
-- JavaScript strings: equality, concatenation, and the truth value of an optional string.
use Prim.Native.String.{String}
use mathlib.Core.Path.{◌≡◌, refl}
use mathlib.Core.Logic.{◌≢◌}
use native.Mathlib.Omega.{arith}
use text.Mathlib.TextEquality.{eq_iff}
use mathlib.Core.Bool.{Bool, true, false, not}
use mathlib.Core.Option.{Option, none, some}
use mathlib.Core.List.{List}
use text.Mathlib.Text.{◌==◌ as eq_text}
use coop_messenger.Prelude.Tests.{if◌then◌else◌}
use coop_messenger.Prelude.Lists.{any}

-- `a === b` on strings.
infix 50 ◌===◌
abbrev pub ◌===◌ : String → String → Bool
a === b = eq_text a b

-- `undefined` and `null` are `none`; they and the empty string are falsy.
abbrev pub truthy : Option String → Bool
truthy none = false
truthy (some s) = not (s === "")

-- `a || b`
abbrev pub or_else : Option String → String → String
or_else none b = b
or_else (some a) b = if a === "" then b else a

-- `a === b` where `a` may be undefined.
abbrev pub some_eq : Option String → String → Bool
some_eq none b = false
some_eq (some a) b = a === b

-- `xs.includes(x)`
abbrev pub includes : String → List String → Bool
includes x = any (λ y. y === x)

-- An optional string equals at most one string.
pub some_eq_ne :
    (o : Option String) (a b : String) → b ≢ a → some_eq o a ≡ true → some_eq o b ≡ false
some_eq_ne none a b h e = refl
some_eq_ne (some s) a b h e = ground (arith, eq_iff s a, eq_iff s b)
