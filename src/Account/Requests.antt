-- ===== src/Account/Requests.antt =====
-- web/src/app/AccountApi.js: the requests about the account, its tokens, subscriptions and billing.
-- `Base64.encode` is a parameter.
use coop_messenger.Prelude.{ℕ, ◌+◌, ◌/◌, String, Bool, none, some, [], ◌∷◌, ltb, if◌then◌else◌}
use coop_messenger.Types.{Config, Session}
use coop_messenger.Utils.Urls.{◌&◌}
use coop_messenger.Utils.Auth.{maybe_with_bearer_auth, with_basic_auth}
use coop_messenger.Account.{str, num, Body, Request, authorized, request, account_url}

module _ (config : Config) (session : Session) where
  unfoldable pub logout : Request
  unfolding authorized
  logout = request session "DELETE" (account_url config & "/token") none

  unfoldable pub delete_account : String → Request
  unfolding authorized
  delete_account password =
      request session "DELETE" (account_url config) (some (("password", str password) ∷ []))

  unfoldable pub change_password : String → String → Request
  unfolding authorized
  change_password current new =
      request session "POST" (account_url config & "/password")
        (some (("password", str current) ∷ ("new_password", str new) ∷ []))

  unfoldable pub extend_token : Request
  unfolding authorized
  extend_token = request session "PATCH" (account_url config & "/token") none

  unfoldable pub upsert_reservation : String → String → Request
  unfolding authorized
  upsert_reservation topic everyone =
      request session "POST" (account_url config & "/reservation")
        (some (("topic", str topic) ∷ ("everyone", str everyone) ∷ []))

  unfoldable pub upsert_billing_subscription : String → String → String → Request
  unfolding authorized
  upsert_billing_subscription method tier interval =
      request session method (account_url config & "/billing/subscription")
        (some (("tier", str tier) ∷ ("interval", str interval) ∷ []))

  unfoldable pub delete_billing_subscription : Request
  unfolding authorized
  delete_billing_subscription =
      request session "DELETE" (account_url config & "/billing/subscription") none

  unfoldable pub create_billing_portal_session : Request
  unfolding authorized
  create_billing_portal_session =
      request session "POST" (account_url config & "/billing/portal") none

  unfoldable pub verify_phone_number : String → String → Request
  unfolding authorized
  verify_phone_number number channel =
      request session "PUT" (account_url config & "/phone/verify")
        (some (("number", str number) ∷ ("channel", str channel) ∷ []))

  unfoldable pub add_phone_number : String → String → Request
  unfolding authorized
  add_phone_number number code =
      request session "PUT" (account_url config & "/phone")
        (some (("number", str number) ∷ ("code", str code) ∷ []))

  unfoldable pub delete_phone_number : String → Request
  unfolding authorized
  delete_phone_number number =
      request session "DELETE" (account_url config & "/phone") (some (("number", str number) ∷ []))

  unfoldable pub create_billing_subscription : String → String → Request
  unfolding upsert_billing_subscription
  create_billing_subscription tier interval = upsert_billing_subscription "POST" tier interval

  unfoldable pub update_billing_subscription : String → String → Request
  unfolding upsert_billing_subscription
  update_billing_subscription tier interval = upsert_billing_subscription "PUT" tier interval

  unfoldable pub update_settings : Body → Request
  unfolding authorized
  update_settings payload =
      request session "PATCH" (account_url config & "/settings") (some payload)

  unfoldable pub add_subscription : String → String → Request
  unfolding authorized
  add_subscription base_url topic =
      request session "POST" (account_url config & "/subscription")
        (some (("base_url", str base_url) ∷ ("topic", str topic) ∷ []))

  -- `payload` is spread behind the two keys.
  unfoldable pub update_subscription : String → String → Body → Request
  unfolding authorized
  update_subscription base_url topic payload =
      request session "PATCH" (account_url config & "/subscription")
        (some (("base_url", str base_url) ∷ ("topic", str topic) ∷ payload))

  unfoldable pub delete_subscription : String → String → Request
  unfolding authorized
  delete_subscription base_url topic = record {
    url = account_url config & "/subscription";
    method = "DELETE";
    headers = authorized session (("X-BaseURL", base_url) ∷ ("X-Topic", topic) ∷ []);
    body = none;
  }

  unfoldable pub delete_reservation : String → Bool → Request
  unfolding authorized
  delete_reservation topic delete_messages = record {
    url = account_url config & "/reservation/" & topic;
    method = "DELETE";
    headers =
        authorized session
          (("X-Delete-Messages", if delete_messages then "true" else "false") ∷ []);
    body = none;
  }

  unfoldable pub delete_token : String → Request
  unfolding authorized
  delete_token token = record {
    url = account_url config & "/token";
    method = "DELETE";
    headers = authorized session (("X-Token", token) ∷ []);
    body = none;
  }

  -- `now` is in milliseconds.
  unfoldable pub create_token : String → ℕ → ℕ → Request
  unfolding authorized
  create_token label expires now = request session "POST" (account_url config & "/token") (
      some (
        ("label", str label)
        ∷ ("expires", num (if ltb 0 expires then now / 1000 + expires else 0))
        ∷ []))

  unfoldable pub update_token : String → String → ℕ → ℕ → Request
  unfolding authorized
  update_token token label expires now = request session "PATCH" (account_url config & "/token") (
      some (
        ("token", str token)
        ∷ ("label", str label)
        ∷ (if ltb 0 expires then ("expires", num (now / 1000 + expires)) ∷ [] else [])))

  -- `get` may be called by anyone: the header is there only with a token.
  unfoldable pub get : Request
  unfolding maybe_with_bearer_auth
  get = record {
    url = account_url config;
    method = "GET";
    headers = maybe_with_bearer_auth [] session.token;
    body = none;
  }

  -- `create` and `billingTiers` carry no header.
  unfoldable pub create : String → String → Request
  create username password = record {
    url = account_url config;
    method = "POST";
    headers = [];
    body = some (("username", str username) ∷ ("password", str password) ∷ []);
  }

  unfoldable pub billing_tiers : Request
  billing_tiers = record {
    url = config.base_url & "/v1/tiers";
    method = "GET";
    headers = [];
    body = none;
  }

-- `Base64.encode`
module _ (encode_base64 : String → String) (config : Config) where
  unfoldable pub login : String → String → Request
  unfolding with_basic_auth
  login username password = record {
    url = account_url config & "/token";
    method = "POST";
    headers = with_basic_auth encode_base64 [] username password;
    body = none;
  }
