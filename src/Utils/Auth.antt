-- ===== src/Utils/Auth.antt =====
-- web/src/app/utils.js: the Authorization header of a request. `Base64.encode` of js-base64 is a
-- parameter.
use coop_messenger.Prelude.{
  String, Option, none, some, List, [], ◌∷◌, ◌++◌, ◌===◌, not, truthy, filter, if◌then◌else◌,
}
use coop_messenger.Types.{User}
use coop_messenger.Utils.Urls.{◌&◌}

abbrev pub Headers : Type 0
Headers = List (String × String)

-- `{ ...headers, name: value }`
unfoldable pub with_header : Headers → String → String → Headers
with_header headers name value = filter (λ h. not (h.0 === name)) headers ++ (name, value) ∷ []

unfoldable pub bearer_auth : String → String
bearer_auth token = "Bearer " & token

unfoldable pub with_bearer_auth : Headers → String → Headers
unfolding with_header bearer_auth
with_bearer_auth headers token = with_header headers "Authorization" (bearer_auth token)

unfoldable pub maybe_with_bearer_auth : Headers → Option String → Headers
unfolding with_bearer_auth
maybe_with_bearer_auth headers none = headers
maybe_with_bearer_auth headers (some token) =
    if truthy (some token) then with_bearer_auth headers token else headers

module _ (encode_base64 : String → String) where
  unfoldable pub basic_auth : String → String → String
  basic_auth username password = "Basic " & encode_base64 (username & ":" & password)

  unfoldable pub with_basic_auth : Headers → String → String → Headers
  unfolding with_header basic_auth
  with_basic_auth headers username password =
      with_header headers "Authorization" (basic_auth username password)

  -- A password is preferred to a token; with neither the headers are left as they are.
  unfoldable pub maybe_with_auth : Headers → Option User → Headers
  unfolding with_basic_auth maybe_with_bearer_auth
  maybe_with_auth headers none = headers
  maybe_with_auth headers (some user) = elim user.password [
    | none ↦ maybe_with_bearer_auth headers user.token
    | some password ↦
        if truthy (some password)
        then with_basic_auth headers user.username password
        else maybe_with_bearer_auth headers user.token
  ]
