-- ===== src/Account/Dialogs.antt =====
-- The dialogs of web/src/components/Account.jsx and ReserveDialogs.jsx: what each submits, and what
-- comes of it. `message` is the text of an error; other texts are their translation keys.
pub mod Told
use coop_messenger.Prelude.{
  ℕ, String, Bool, true, false, not, ◌&&◌, ◌||◌, Option, none, some, List, [], ◌∷◌, ◌++◌, ◌===◌,
  any, truthy, or_else, if◌then◌else◌,
}
use coop_messenger.Types.{Config, Session, Reservation}
use coop_messenger.Errors.{AppError, unauthorized, incorrect_password, topic_reserved}
use coop_messenger.Users.{reset}
use coop_messenger.Account.{Request}
use coop_messenger.Account.Requests as Requests

-- What is done besides, in order.
pub data Effect : Type 0 where
  sent : Request → Effect
  redirect_to_login redirect_to_app database_deleted : Effect
  window_opened : String → Effect

-- An open dialog and the session.
pub record Page : Type 0 where
  pub session : Session
  pub closed : Bool
  pub error : String
  pub effects : List Effect

-- When a token expires: as before, which is the value -1; never, which is 0; or in some seconds.
pub data Expiry : Type 0 where
  unchanged never : Expiry
  in_seconds : ℕ → Expiry

-- `expires > 0 ? … : …` is all that the requests ask of the value, and neither -1 nor 0 is positive.
abbrev pub seconds : Expiry → ℕ
seconds unchanged = 0
seconds never = 0
seconds (in_seconds n) = n

-- The dialogs, with the values of their fields.
pub data Form : Type 0 where
  change_password : String → String → Form
  delete_account : String → Form
  -- a new token, or the one that is edited, with its label and expiry
  save_token : Option String → String → Expiry → Form
  delete_token : String → Form
  -- the topic, and what everyone may do
  add_reservation edit_reservation : String → String → Form
  delete_reservation : String → Bool → Form

-- Whether the button that submits is enabled.
unfoldable pub password_button_enabled : String → String → String → Bool
password_button_enabled current new confirm =
    not (new === "") && (not (current === "") && (new === confirm))

abbrev pub already_reserved : List Reservation → String → Bool
already_reserved reservations topic = any (λ (r : Reservation). r.topic === topic) reservations

-- `props.reservation?.everyone || Permission.DENY_ALL`
unfoldable pub first_everyone : Option Reservation → String
first_everyone none = "deny-all"
first_everyone (some r) = or_else (some r.everyone) "deny-all"

abbrev pub send : Request → Page → Page
send r p = record p { effects = p.effects ++ sent r ∷ [] }

abbrev pub show : String → Page → Page
show text p = record p { error = text }

abbrev pub close : Page → Page
close p = record p { closed = true }

-- `session.resetAndRedirect(routes.login)`
unfoldable pub expire : Page → Page
unfolding reset
expire p = record p { session = reset p.session; effects = p.effects ++ redirect_to_login ∷ [] }

-- The clauses of `catch`.
unfoldable pub catch_password : (AppError → String) → AppError → Page → Page
unfolding expire
catch_password message incorrect_password p =
    show "account_basics_password_dialog_current_password_incorrect" p
catch_password message unauthorized p = expire p
catch_password message e p = show (message e) p

unfoldable pub catch_token : (AppError → String) → AppError → Page → Page
unfolding expire
catch_token message unauthorized p = expire p
catch_token message e p = show (message e) p

unfoldable pub catch_add_reservation : (AppError → String) → AppError → Page → Page
unfolding expire
catch_add_reservation message unauthorized p = close (expire p)
catch_add_reservation message topic_reserved p =
    show "subscribe_dialog_error_topic_already_reserved" p
catch_add_reservation message e p = show (message e) p

unfoldable pub catch_reservation : (AppError → String) → AppError → Page → Page
unfolding expire
catch_reservation message unauthorized p = close (expire p)
catch_reservation message e p = show (message e) p

-- After the account was deleted: the database goes, and the session ends.
unfoldable pub account_deleted : Page → Page
unfolding reset
account_deleted p = record p {
  session = reset p.session;
  effects = p.effects ++ database_deleted ∷ redirect_to_app ∷ [];
}

module _ (config : Config) (now : ℕ) where
  unfoldable pub request_of : Form → Session → Request
  unfolding Requests.change_password Requests.delete_account Requests.create_token
      Requests.update_token Requests.delete_token Requests.upsert_reservation
      Requests.delete_reservation
  request_of (change_password current new) session =
      Requests.change_password config session current new
  request_of (delete_account password) session = Requests.delete_account config session password
  request_of (save_token none label expires) session =
      Requests.create_token config session label (seconds expires) now
  request_of (save_token (some token) label expires) session =
      Requests.update_token config session token label (seconds expires) now
  request_of (delete_token token) session = Requests.delete_token config session token
  request_of (add_reservation topic everyone) session =
      Requests.upsert_reservation config session topic everyone
  request_of (edit_reservation topic everyone) session =
      Requests.upsert_reservation config session topic everyone
  request_of (delete_reservation topic delete_messages) session =
      Requests.delete_reservation config session topic delete_messages

-- What stands behind the `await` of the request.
unfoldable pub after_answer : (AppError → String) → Form → Option AppError → Page → Page
unfolding account_deleted catch_password catch_token catch_add_reservation catch_reservation
after_answer message (delete_account password) none p = account_deleted p
after_answer message form none p = close p
after_answer message (change_password current new) (some e) p = catch_password message e p
after_answer message (delete_account password) (some e) p = catch_password message e p
after_answer message (save_token token label expires) (some e) p = catch_token message e p
after_answer message (delete_token token) (some e) p = catch_token message e p
after_answer message (add_reservation topic everyone) (some e) p = catch_add_reservation message e p
after_answer message (edit_reservation topic everyone) (some e) p = catch_reservation message e p
after_answer message (delete_reservation topic delete_messages) (some e) p =
    catch_reservation message e p

module _ (config : Config) (now : ℕ) (message : AppError → String)
    (answer : Request → Option AppError) where
  unfoldable pub handle_submit : Form → Page → Page
  unfolding request_of after_answer
  handle_submit form p =
      let r = request_of config now form p.session in
      after_answer message form (answer r) (send r p)

-- `handleManageBilling`, on the URL or the error; and whether the error of the portal is shown.
module _ (config : Config) where
  unfoldable pub handle_manage_billing : Option String → Option AppError → Page → Page × Bool
  unfolding expire Requests.create_billing_portal_session
  handle_manage_billing url none p = (
    record (send (Requests.create_billing_portal_session config p.session) p) {
      effects =
          p.effects
          ++ sent (Requests.create_billing_portal_session config p.session)
            ∷ window_opened (or_else url "undefined")
            ∷ [];
    },
    false,
  )
  handle_manage_billing url (some unauthorized) p =
      (expire (send (Requests.create_billing_portal_session config p.session) p), false)
  handle_manage_billing url (some e) p =
      (send (Requests.create_billing_portal_session config p.session) p, true)

  -- `handleDelete` of a phone number: other errors are only logged.
  unfoldable pub handle_delete_number : Option AppError → String → Page → Page
  unfolding expire Requests.delete_phone_number
  handle_delete_number none number p = send (Requests.delete_phone_number config p.session number) p
  handle_delete_number (some unauthorized) number p =
      expire (send (Requests.delete_phone_number config p.session number) p)
  handle_delete_number (some e) number p =
      send (Requests.delete_phone_number config p.session number) p
