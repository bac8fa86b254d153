-- ===== src/Account/Phone.antt =====
-- AddPhoneNumberDialog of web/src/components/Account.jsx: a number is verified by a code that the server
-- sends to it. The fields can be edited while a request is on its way.
pub mod Verified
use Prim.Native.Char
use Prim.Native.String
use coop_messenger.Prelude.{
  String, ◌≡◌, Bool, true, false, not, ◌&&◌, Option, none, some, List, [], ◌∷◌, leb, eqb,
  if◌then◌else◌,
}
use coop_messenger.Types.{Session}
use coop_messenger.Errors.{AppError, unauthorized}
use coop_messenger.Users.{reset}

-- A request on its way, with what it was sent with: the number and the channel, or the number and the
-- code.
pub data Pending : Type 0 where
  verifying : String → String → Pending
  adding : String → String → Pending

-- Besides the fields of the dialog: the request on its way, the numbers to which the server has sent a
-- code, and those that were to be added, the latest first.
pub record PhoneDialog : Type 0 where
  pub phone_number : String
  pub channel : String
  pub code : String
  pub sending : Bool
  pub verification_code_sent : Bool
  pub error : String
  pub closed : Bool
  pub session : Session
  pub pending : Option Pending
  pub called : List String
  pub added : List String

abbrev pub new_dialog : Session → PhoneDialog
new_dialog session = record {
  phone_number = "";
  channel = "sms";
  code = "";
  sending = false;
  verification_code_sent = false;
  error = "";
  closed = false;
  session = session;
  pending = none;
  called = [];
  added = [];
}

abbrev pub all_digits : String → Bool
all_digits String.[] = true
all_digits (String.◌∷◌ c s) =
    (leb b'0' (Prim.Native.Char.code c) && leb (Prim.Native.Char.code c) b'9') && all_digits s

-- `/^\+\d+$/`
unfoldable pub valid_number : String → Bool
valid_number String.[] = false
valid_number (String.◌∷◌ c String.[]) = false
valid_number (String.◌∷◌ c (String.◌∷◌ x s)) =
    eqb (Prim.Native.Char.code c) b'+' && all_digits (String.◌∷◌ x s)

-- Whether the button that submits is enabled.
unfoldable pub submit_enabled : PhoneDialog → Bool
unfolding valid_number
submit_enabled g = not g.sending && valid_number g.phone_number

-- `handleDialogSubmit`, up to the `await`
unfoldable pub handle_dialog_submit : PhoneDialog → PhoneDialog
handle_dialog_submit g =
    if not g.verification_code_sent
    then record g { sending = true; pending = some (verifying g.phone_number g.channel) }
    else record g {
      sending = true;
      pending = some (adding g.phone_number g.code);
      added = g.phone_number ∷ g.added;
    }

-- What stands behind the `await`, `finally` included.
abbrev pub settled : PhoneDialog → PhoneDialog
settled g = record g { sending = false; pending = none }

unfoldable pub failed : (AppError → String) → AppError → PhoneDialog → PhoneDialog
unfolding reset
failed message unauthorized g = record (settled g) { session = reset g.session }
failed message e g = record (settled g) { error = message e }

unfoldable pub answered :
    (AppError → String) → Pending → Option AppError → PhoneDialog → PhoneDialog
unfolding failed
answered message (verifying number channel) none g = record (settled g) {
  verification_code_sent = true;
  called = number ∷ g.called;
}
answered message (adding number code) none g = record (settled g) { closed = true }
answered message pending (some e) g = failed message e g

unfoldable pub handle_cancel : PhoneDialog → PhoneDialog
handle_cancel g =
    if g.verification_code_sent
    then record g { verification_code_sent = false; code = "" }
    else record g { closed = true }

-- The field of the number is there until a code was sent, the field of the code from then on.
pub data Step (message : AppError → String) (g : PhoneDialog) : PhoneDialog → Type 0 where
  number_typed :
      (s : String)
      → g.verification_code_sent ≡ false
      → Step message g (record g { phone_number = s })
  channel_chosen :
      (s : String) → g.verification_code_sent ≡ false → Step message g (record g { channel = s })
  code_typed :
      (s : String) → g.verification_code_sent ≡ true → Step message g (record g { code = s })
  submitted : submit_enabled g ≡ true → Step message g (handle_dialog_submit g)
  settles :
      (p : Pending) (o : Option AppError)
      → g.pending ≡ some p
      → Step message g (answered message p o g)
  cancelled : Step message g (handle_cancel g)
