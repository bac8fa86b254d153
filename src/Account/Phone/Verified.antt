-- ===== src/Account/Phone/Verified.antt =====
-- Which numbers are added.
use coop_messenger.Prelude.{
  ◌≡◌, refl, String, Bool, true, false, Option, none, some, List, [], ◌∷◌, all, includes, ◌===◌,
  eq_refl, arith, Bool-cases, inl, inr, if◌then◌else◌,
}
use coop_messenger.Types.{Session}
use coop_messenger.Errors.{AppError, unauthorized}
use coop_messenger.Account.Phone.{
  Pending, verifying, adding, PhoneDialog, new_dialog, valid_number, submit_enabled,
  handle_dialog_submit, failed, answered, handle_cancel, Step, number_typed, channel_chosen,
  code_typed, submitted, settles, cancelled,
}

abbrev pub is_verifying : Option Pending → Bool
is_verifying none = false
is_verifying (some (verifying number channel)) = true
is_verifying (some (adding number code)) = false

-- The number is not edited while a code is asked for.
abbrev pub IsOrderly :
    {message : AppError → String} {g g' : PhoneDialog} → Step message g g' → Type 0
IsOrderly {g} (number_typed s h) = is_verifying g.pending ≡ false
IsOrderly step = Unit

pub data Reach (message : AppError → String) (g : PhoneDialog) : PhoneDialog → Type 0 where
  here : Reach message g g
  next :
      {h k : PhoneDialog}
      → Reach message g h
      → (s : Step message h k) → IsOrderly s
      → Reach message g k

pub data AnyReach (message : AppError → String) (g : PhoneDialog) : PhoneDialog → Type 0 where
  start : AnyReach message g g
  step : {h k : PhoneDialog} → AnyReach message g h → Step message h k → AnyReach message g k

-- A code that is asked for is asked for the number in the field.
abbrev for_number : Option Pending → String → Bool
for_number none number = true
for_number (some (verifying n channel)) number = n === number
for_number (some (adding n code)) number = true

abbrev pub all_called : PhoneDialog → Bool
all_called g = all (λ n. includes n g.called) g.added

abbrev idle_if : Bool → Option Pending → Bool
idle_if true p = true
idle_if false none = true
idle_if false (some p) = false

record IsVerified (g : PhoneDialog) : Type 0 where
  idle : idle_if g.sending g.pending ≡ true
  known : (if g.verification_code_sent then includes g.phone_number g.called else true) ≡ true
  matching : for_number g.pending g.phone_number ≡ true
  called : all_called g ≡ true

for_number_other :
    (p : Option Pending) (s : String) → is_verifying p ≡ false → for_number p s ≡ true
for_number_other none s h = refl
for_number_other (some (verifying n c)) s h = ground (arith, h)
for_number_other (some (adding n c)) s h = refl

all-includes-cons :
    (m : String) (called added : List String)
    → all (λ n. includes n called) added ≡ true
    → all (λ n. includes n (m ∷ called)) added ≡ true
all-includes-cons m called [] h = refl
all-includes-cons m called (x ∷ added) h =
    ground (arith, h, all-includes-cons m called added (ground (arith, h)))

handle_dialog_submit-IsVerified :
    (g : PhoneDialog) → IsVerified g → IsVerified (handle_dialog_submit g)
unfolding handle_dialog_submit
handle_dialog_submit-IsVerified g v = elim (Bool-cases g.verification_code_sent) [
  | inl known ↦ rw known (record {
    idle = refl;
    known = rw known at v.known;
    matching = refl;
    called = ground (arith, known, v.known, v.called);
  })
  | inr unknown ↦
      rw unknown
        (record { idle = refl; known = refl; matching = eq_refl g.phone_number; called = v.called })
]

failed-IsVerified :
    (message : AppError → String) (e : AppError) (g : PhoneDialog)
    → IsVerified g
    → IsVerified (failed message e g)
unfolding failed
failed-IsVerified message unauthorized g v = record {
  idle = refl;
  known = v.known;
  matching = refl;
  called = v.called;
}
failed-IsVerified message e g v = record {
  idle = refl;
  known = v.known;
  matching = refl;
  called = v.called;
}

Step-IsVerified :
    {message : AppError → String} {g h : PhoneDialog} (s : Step message g h)
    → IsOrderly s
    → IsVerified g
    → IsVerified h
unfolding answered handle_cancel
Step-IsVerified {g} (number_typed s f) o v = record {
  idle = v.idle;
  known = rw f refl;
  matching = for_number_other g.pending s o;
  called = v.called;
}
Step-IsVerified {g} (channel_chosen s f) o v = ground (arith, v)
Step-IsVerified {g} (code_typed s f) o v = ground (arith, v)
Step-IsVerified {g} (submitted e) o v = handle_dialog_submit-IsVerified g v
Step-IsVerified {g} (settles (verifying n c) none e) o v = record {
  idle = refl;
  known = ground (arith, rw e at v.matching);
  matching = refl;
  called = all-includes-cons n g.called g.added v.called;
}
Step-IsVerified {g} (settles (adding n c) none e) o v = record {
  idle = refl;
  known = v.known;
  matching = refl;
  called = v.called;
}
Step-IsVerified {message} {g} (settles p (some x) e) o v = failed-IsVerified message x g v
Step-IsVerified {g} cancelled o v = elim (Bool-cases g.verification_code_sent) [
  | inl there ↦
      rw there (record { idle = v.idle; known = refl; matching = v.matching; called = v.called })
  | inr not_there ↦
      rw not_there
        (record { idle = v.idle; known = refl; matching = v.matching; called = v.called })
]

Reach-IsVerified :
    {message : AppError → String} {g h : PhoneDialog}
    → Reach message g h
    → IsVerified g
    → IsVerified h
Reach-IsVerified here v = v
Reach-IsVerified (next r s o) v = Step-IsVerified s o (Reach-IsVerified r v)

-- Where the number is not edited while a code is asked for, every number that the dialog asks the server
-- to add is one to which the server has sent a code, whatever requests fail and however often the
-- user goes back.
pub Reach-called :
    (message : AppError → String) (session : Session) (g : PhoneDialog)
    → Reach message (new_dialog session) g
    → all_called g ≡ true
Reach-called message session g r =
    (Reach-IsVerified r
      (record { idle = refl; known = refl; matching = refl; called = refl })).called

-- A code is sent to one number, and another is added.
abbrev mixed_up : Session → String → String → PhoneDialog
mixed_up session a b = record (new_dialog session) {
  phone_number = b;
  sending = true;
  verification_code_sent = true;
  pending = some (adding b "");
  called = a ∷ [];
  added = b ∷ [];
}

-- If the number is edited while a code is asked for, the dialog can come to ask the server to add a number
-- to which no code was sent, with the code for another one.
AnyReach-mixed_up :
    (message : AppError → String) (session : Session) (a b : String)
    → valid_number a ≡ true
    → valid_number b ≡ true
    → (a === b) ≡ false
    → AnyReach message (new_dialog session) (mixed_up session a b)
      × (all_called (mixed_up session a b) ≡ false)
unfolding submit_enabled handle_dialog_submit answered
AnyReach-mixed_up message session a b va vb differ = (
  step
      (step (step (step (step start (number_typed a refl)) (submitted va)) (number_typed b refl))
        (settles (verifying a "sms") none refl))
      (submitted vb),
  rw differ refl,
)
