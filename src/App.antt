-- ===== src/App.antt =====
-- web/src/components/App.jsx and web/src/components/routes.js: the routes of the chats, which subscription is open at
-- one, and the number of new notifications in the title.
pub mod Selected
use coop_messenger.Prelude.{
  ℕ, ◌+◌, ◌≡◌, String, Bool, true, false, not, ◌&&◌, ◌||◌, Option, none, some, List, [], ◌∷◌,
  filter, foldl, includes, some_eq, truthy, ltb, ◌===◌, if◌then◌else◌,
}
use coop_messenger.Prelude.Decimal.{to_string}
use coop_messenger.Types.{Config, Subscription}
use coop_messenger.Utils.Urls.{◌&◌, short_url}

-- The path of a chat.
unfoldable pub for_subscription : Config → Subscription → String
for_subscription config s =
    if not (s.base_url === config.base_url)
    then "/" & short_url s.base_url & "/" & s.topic
    else "/" & s.topic

-- `https://${url}` and `http://${url}`
abbrev pub expand_url : String → List String
expand_url url = ("https://" & url) ∷ ("http://" & url) ∷ []

-- What `useParams` of react-router gives: the parameters of the route that the path matches.
pub record Params : Type 0 where
  pub base_url : Option String
  pub topic : Option String

-- `params.baseUrl && expandUrl(params.baseUrl).includes(s.baseUrl)`
abbrev pub at_server : Option String → Subscription → Bool
at_server none s = false
at_server (some url) s = truthy (some url) && includes s.base_url (expand_url url)

abbrev pub is_at : Config → Params → Subscription → Bool
is_at config params s =
    (at_server params.base_url s && some_eq params.topic s.topic)
    || (config.base_url === s.base_url && some_eq params.topic s.topic)

abbrev pub without_internal : List Subscription → List Subscription
without_internal = filter (λ (s : Subscription). not s.internal)

-- `const [first] = xs`
abbrev pub first_of {ℓ} : {A : Type ℓ} → List A → Option A
first_of [] = none
first_of (x ∷ xs) = some x

unfoldable pub selected : Config → Params → List Subscription → Option Subscription
selected config params subscriptions =
    first_of (filter (is_at config params) (without_internal subscriptions))

-- `all` of the subscription manager gives each subscription with its number of new notifications.
unfoldable pub new_notifications_count : List (Subscription × ℕ) → ℕ
new_notifications_count subscriptions =
    foldl (λ prev s. prev + s.1) 0
      (filter (λ (s : Subscription × ℕ). not s.0.internal) subscriptions)

unfoldable pub title : ℕ → String
title new_count = if ltb 0 new_count then "(" & to_string new_count & ") Coop" else "Coop"
