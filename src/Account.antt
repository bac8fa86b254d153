-- ===== src/Account.antt =====
-- web/src/app/AccountApi.js: the request that each method sends to the home server. Its response goes
-- through `fetch_or_throw`.
pub mod Requests
pub mod Social
pub mod Sync
pub mod Dialogs
pub mod Phone
use coop_messenger.Prelude.{
  ℕ, ◌+◌, ◌/◌, String, Bool, Option, none, some, List, [], ◌∷◌, ◌++◌, ltb, if◌then◌else◌,
}
use coop_messenger.Types.{Config, Session}
use coop_messenger.Utils.Urls.{◌&◌}
use coop_messenger.Utils.Auth.{Headers, with_bearer_auth, maybe_with_bearer_auth, with_basic_auth}

-- The values in a request's body.
pub data Json : Type 0 where
  str : String → Json
  num : ℕ → Json
  strs : List String → Json
  flag : Bool → Json
  -- an object with one property
  object : String → Json → Json

abbrev pub Body : Type 0
Body = List (String × Json)

pub record Request : Type 0 where
  pub url : String
  pub method : String
  pub headers : Headers
  pub body : Option Body

-- `session.token()` in a header, where null is spelled out.
abbrev pub token_text : Session → String
token_text session = elim session.token [ none ↦ "null" | some t ↦ t ]

-- `withBearerAuth(headers, session.token())`
unfoldable pub authorized : Session → Headers → Headers
unfolding with_bearer_auth
authorized session headers = with_bearer_auth headers (token_text session)

abbrev pub account_url : Config → String
account_url config = config.base_url & "/v1/account"

abbrev pub coop_url : Config → String → String
coop_url config path = config.base_url & "/v1/coop/" & path

-- A request of the signed-in user.
abbrev pub request : Session → String → String → Option Body → Request
request session method url body = record {
  url = url;
  method = method;
  headers = authorized session [];
  body = body;
}
