-- ===== src/SignIn.antt =====
-- web/src/components/Login.jsx, Signup.jsx, and the registration of InvitePage.jsx. A text that is
-- translated is its key; `message` is the text of an error.
pub mod Typed
use Prim.Native.Char.{code}
use Prim.Native.String
use coop_messenger.Prelude.{
  ℕ, zero, suc, ◌+◌, String, Bool, true, false, not, Option, none, some, List, [], ◌∷◌, ◌===◌, ltb,
  truthy, or_else, if◌then◌else◌,
}
use coop_messenger.Types.{Config, Session}
use coop_messenger.Errors.{
  AppError, unauthorized, user_exists, account_create_limit_reached, Result, ok, raise,
}
use coop_messenger.Utils.Urls.{◌&◌}
use coop_messenger.Users.{store}
use coop_messenger.Account.{Request, str}
use coop_messenger.Account.Requests.{create, login}
use coop_messenger.Commands.{is_empty, trim}

-- The fields of the three forms.
pub record Credentials : Type 0 where
  pub username : String
  pub password : String
  pub confirm : String

-- `onChange` of a field of the login and the sign-up.
abbrev pub trimmed_field : String → String
trimmed_field value = trim value

-- `onChange` of a field of the invite.
abbrev pub plain_field : String → String
plain_field value = value

-- How a submission ends: on the start page with a session, at the login, or with a text.
pub data Submitted : Type 0 where
  signed_in : Session → Submitted
  at_login : String → Submitted
  shows : String → Submitted

module _ (message : AppError → String) (session : Session) where
  unfoldable pub after_login : Credentials → Result String → Submitted
  unfolding store
  after_login user (ok token) = signed_in (store user.username token session)
  after_login user (raise unauthorized) = shows "login_error_invalid_credentials"
  after_login user (raise e) = shows (message e)

  -- The texts of the sign-up.
  abbrev pub sign_up_error : AppError → String
  sign_up_error user_exists = "signup_error_username_taken"
  sign_up_error account_create_limit_reached = "signup_error_creation_limit_reached"
  sign_up_error e = message e

  abbrev pub after_sign_up : Credentials → Result String → Submitted
  after_sign_up user (ok token) = signed_in (store user.username token session)
  after_sign_up user (raise e) = shows (sign_up_error e)

  -- `created` and `token` are what the two requests give.
  unfoldable pub handle_sign_up : Credentials → Option AppError → Result String → Submitted
  unfolding store
  handle_sign_up user (some e) token = shows (sign_up_error e)
  handle_sign_up user none token = after_sign_up user token

-- The requests of the login and the sign-up.
module _ (encode_base64 : String → String) (config : Config) where
  unfoldable pub login_request : Credentials → Request
  unfolding login
  login_request user = login encode_base64 config user.username user.password

-- `password.length`, in UTF-16 code units
abbrev pub text_length : String → ℕ
text_length String.[] = 0
text_length (String.◌∷◌ c s) = (if ltb 65535 (code c) then 2 else 1) + text_length s

abbrev pub redeem_request : Config → String → Credentials → Request
redeem_request config invite user = record {
  url = config.base_url & "/v1/invite/" & invite & "/redeem";
  method = "POST";
  headers = ("Content-Type", "application/json") ∷ [];
  body = some (("username", str (trim user.username)) ∷ ("password", str user.password) ∷ []);
}

-- The registration of an invite: the error that is shown, or the request.
pub data Redeeming : Type 0 where
  invalid : String → Redeeming
  sends : Request → Redeeming

unfoldable pub redeem : Config → String → Credentials → Redeeming
redeem config invite user =
    if is_empty (trim user.username)
    then invalid "invite_error_username_required"
    else if ltb (text_length user.password) 8
    then invalid "invite_error_password_too_short"
    else if not (user.password === user.confirm)
    then invalid "invite_error_passwords_mismatch"
    else sends (redeem_request config invite user)

-- What the server answers to it: done, an error whose body has `message`, or nothing.
pub data Redeemed : Type 0 where
  done : Redeemed
  refused : Option String → Redeemed
  unreachable : Redeemed

unfoldable pub after_redeem : Credentials → Redeemed → Submitted
after_redeem user done = at_login (trim user.username)
after_redeem user (refused text) = shows (or_else text "invite_error_register_failed")
after_redeem user unreachable = shows "invite_error_network_register"
