-- ===== src/SignIn/Typed.antt =====
-- What typing into a field that is trimmed at every change leaves of the text.
use Prim.Native.Char.{Char}
use text.Mathlib.TextLemmas.{append-nil, nil-append, cons-append, append_assoc}
use coop_messenger.Prelude.{
  ◌≡◌, refl, sym, ap, ◌∙◌, String, true, false, ◌===◌, if◌then◌else◌, arith, ltb, eq_iff, eq_refl,
  Bool-cases, inl, inr,
}
use coop_messenger.Utils.Urls.{◌&◌}
use coop_messenger.Types.{Config}
use coop_messenger.Commands.{is_empty, is_white, no_white, trim, trim-append_white}
use coop_messenger.SignIn.{trimmed_field, Credentials, text_length, sends, redeem_request, redeem}

-- The characters of a text, typed one after the other behind what the field has.
unfoldable pub typed : String → String → String
typed field String.[] = field
typed field (String.◌∷◌ c s) = typed (trimmed_field (field & String.◌∷◌ c "")) s

unfoldable pub without_white : String → String
without_white String.[] = ""
without_white (String.◌∷◌ c s) =
    let rest = without_white s in if is_white c then rest else String.◌∷◌ c rest

no_white-without_white : (s : String) → no_white (without_white s) ≡ true
unfolding without_white
no_white-without_white String.[] = refl
no_white-without_white (String.◌∷◌ c s) = elim (Bool-cases (is_white c)) [
  | inl white ↦ rw white (no_white-without_white s)
  | inr black ↦ rw black (ground (arith, black, no_white-without_white s))
]

no_white-append : (s t : String) → no_white s ≡ true → no_white t ≡ true → no_white (s & t) ≡ true
no_white-append String.[] t h k = rw nil-append k
no_white-append (String.◌∷◌ c s) t h k =
    rw cons-append (ground (arith, no_white-append s t (ground (arith, h)) k))

trim-no_white : (s : String) → no_white s ≡ true → trim s ≡ s
trim-no_white s h = ap trim (sym (append-nil s)) ∙ trim-append_white s "" h refl

append-cons : (s t : String) (c : Char) → (s & String.◌∷◌ c "") & t ≡ s & String.◌∷◌ c t
append-cons s t c =
    append_assoc s (String.◌∷◌ c "") t
    ∙ ap (s &◌) (cons-append c "" t ∙ ap (String.◌∷◌ c) (nil-append t))

typed-append : (field s : String) → no_white field ≡ true → typed field s ≡ field & without_white s
unfolding typed without_white
typed-append field String.[] h = sym (append-nil field)
typed-append field (String.◌∷◌ c s) h = elim (Bool-cases (is_white c)) [
  | inl white ↦
      rw (white, trim-append_white field (String.◌∷◌ c "") h (ground (arith, white)))
        (typed-append field s h)
  | inr black ↦
      let longer : no_white (field & String.◌∷◌ c "") ≡ true =
        no_white-append field (String.◌∷◌ c "") h (ground (arith, black)) in
      rw (black, trim-no_white (field & String.◌∷◌ c "") longer)
        (typed-append (field & String.◌∷◌ c "") s longer ∙ append-cons field (without_white s) c)
]

without_white_same : (s : String) → no_white s ≡ true → without_white s ≡ s
unfolding without_white
without_white_same String.[] h = refl
without_white_same (String.◌∷◌ c s) h =
    rw (without_white_same s (ground (arith, h))) (ground (arith, h))

typed-eq : (p : String) → (typed "" p === p) ≡ no_white p
typed-eq p = elim (Bool-cases (no_white p)) [
  | inl plain ↦ rw (plain, typed_without, without_white_same p plain) (eq_refl p)
  | inr spaced ↦ elim (Bool-cases (typed "" p === p)) [
    | inl same ↦ absurd (
        ground (
          arith,
          spaced,
          ap no_white (sym typed_without ∙ (eq_iff (typed "" p) p).0 same),
          no_white-without_white p,
        ))
    | inr other ↦ rw (other, spaced) refl
  ]
]
  where
    typed_without : typed "" p ≡ without_white p
    typed_without = typed-append "" p refl ∙ nil-append (without_white p)

-- Where the checks of the invite's form pass, the user is registered with the password as it was typed.
-- Typed in the same way at the login, the password is the same exactly if it has no white space.
redeem-typed :
    (config : Config) (invite : String) (user : Credentials)
    → is_empty (trim user.username) ≡ false
    → ltb (text_length user.password) 8 ≡ false
    → user.password ≡ user.confirm
    → (redeem config invite user ≡ sends (redeem_request config invite user))
      × ((typed "" user.password === user.password) ≡ no_white user.password)
unfolding redeem
redeem-typed config invite user named long same =
    (rw (named, long, (eq_iff user.password user.confirm).1 same) refl, typed-eq user.password)
