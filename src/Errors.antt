-- ===== src/Errors.antt =====
-- web/src/app/errors.js: application errors, and the error that a failed response is turned into.
-- `Result` is what a call gives that may throw.
pub mod Classes
use coop_messenger.Prelude.{ℕ, String, ◌||◌, Option, none, some, eqb, truthy, if◌then◌else◌}
use coop_messenger.Prelude.Decimal.{to_string}
use coop_messenger.Utils.Urls.{◌&◌}

pub data AppError : Type 0 where
  unauthorized user_exists topic_reserved account_create_limit_reached incorrect_password : AppError
  error : String → AppError
  type_error constraint_error syntax_error network_error : AppError

pub data Result {ℓ} (A : Type ℓ) : Type ℓ where
  ok : A → Result A
  raise : AppError → Result A

infixl 5 ◌>>=◌
abbrev pub ◌>>=◌ {ℓ κ} : {A : Type ℓ} {B : Type κ} → Result A → (A → Result B) → Result B
ok a >>= f = f a
raise e >>= f = raise e

-- The JSON body of an error response; `none` for a response that is not JSON.
pub record ErrorBody : Type 0 where
  pub code : Option ℕ
  pub error : Option String

pub record Response : Type 0 where
  pub status : ℕ
  pub error_body : Option ErrorBody

abbrev pub user_exists_code : ℕ
user_exists_code = 40901

abbrev pub topic_reserved_code : ℕ
topic_reserved_code = 40902

abbrev pub account_create_limit_reached_code : ℕ
account_create_limit_reached_code = 42906

abbrev pub incorrect_password_code : ℕ
incorrect_password_code = 40026

abbrev unexpected : ℕ → AppError
unexpected status = error ("Unexpected response " & to_string status)

-- The ladder over a code that is not zero.
app_error_of_code : ℕ → ℕ → Option String → AppError
app_error_of_code status code text =
    if eqb code user_exists_code
    then user_exists
    else if eqb code topic_reserved_code
    then topic_reserved
    else if eqb code account_create_limit_reached_code
    then account_create_limit_reached
    else if eqb code incorrect_password_code
    then incorrect_password
    else elim text [
      | none ↦ unexpected status
      | some t ↦
          if truthy (some t)
          then error ("Error " & to_string code & ": " & t)
          else unexpected status
    ]

-- What `throwAppError` throws.
unfoldable pub throw_app_error : Response → AppError
unfolding app_error_of_code
throw_app_error response =
    if eqb response.status 401 || eqb response.status 403
    then unauthorized
    else elim response.error_body [
      | none ↦ unexpected response.status
      | some body ↦ elim body.code [
        | none ↦ unexpected response.status
        | some code ↦
            if eqb code 0
            then unexpected response.status
            else app_error_of_code response.status code body.error
      ]
    ]

-- `fetchOrThrow`, on the response that `fetch` gave, if it gave one.
unfoldable pub fetch_or_throw : Option Response → Result Response
unfolding throw_app_error
fetch_or_throw none = raise network_error
fetch_or_throw (some response) =
    if eqb response.status 200 then ok response else raise (throw_app_error response)
