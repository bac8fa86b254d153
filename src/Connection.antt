-- ===== src/Connection.antt =====
-- web/src/app/Connection.js: one WebSocket connection. The browser hands out a socket and a timer
-- when one is asked for; they are arguments, and what a handler asks of the browser and of its
-- listeners is a list of effects.
pub mod Backoff
pub mod Life
use coop_messenger.Prelude.{
  ℕ, zero, suc, ◌+◌, ◌*◌, String, Bool, true, false, not, ◌&&◌, Option, none, some, List, [], ◌∷◌,
  ◌++◌, min, truthy, ◌===◌, if◌then◌else◌,
}
use coop_messenger.Events.{event_open, is_notification_event, is_coop_social_event}
use coop_messenger.Types.{Message, User}
use coop_messenger.Utils.Urls.{◌&◌, topic_url_ws}
use coop_messenger.Utils.Auth.{basic_auth, bearer_auth}

pub data ConnectionState : Type 0 where
  connected connecting : ConnectionState

pub record Connection : Type 0 where
  pub connection_id : ℕ
  pub subscription_id : String
  pub base_url : String
  pub topic : String
  pub user : Option User
  pub since : Option String
  pub ws : Option ℕ
  pub retry_count : ℕ
  pub retry_timeout : Option ℕ

pub data Effect : Type 0 where
  close_socket : ℕ → Effect
  clear_timeout : ℕ → Effect
  -- the timer and its delay in milliseconds
  set_timeout : ℕ → ℕ → Effect
  state_changed : String → ConnectionState → Effect
  notification_received : String → Message → Effect
  social_event_received : String → Message → Effect

-- `retryBackoffSeconds[Math.min(retryCount, retryBackoffSeconds.length - 1)]`
unfoldable pub retry_seconds : ℕ → ℕ
retry_seconds zero = 5
retry_seconds (suc zero) = 10
retry_seconds (suc (suc zero)) = 20
retry_seconds (suc (suc (suc zero))) = 30
retry_seconds (suc (suc (suc (suc zero)))) = 60
retry_seconds (suc (suc (suc (suc (suc n))))) = 120

-- The constructor.
unfoldable pub new_connection :
    ℕ → String → String → String → Option User → Option String → Connection
new_connection connection_id subscription_id base_url topic user since = record {
  connection_id = connection_id;
  subscription_id = subscription_id;
  base_url = base_url;
  topic = topic;
  user = user;
  since = since;
  ws = none;
  retry_count = 0;
  retry_timeout = none;
}

-- `start`, with the new socket.
unfoldable pub start : ℕ → Connection → Connection
start socket c = record c { ws = some socket }

unfoldable pub on_open : Connection → Connection × List Effect
on_open c = (record c { retry_count = 0 }, state_changed c.subscription_id connected ∷ [])

-- What `JSON.parse` gives of a frame: a message, and whether "id" and "time" are in it.
pub record Frame : Type 0 where
  pub message : Message
  pub has_id : Bool
  pub has_time : Bool

abbrev pub relevant_and_valid : Frame → Bool
relevant_and_valid f = is_notification_event f.message.event && f.has_id && f.has_time

-- `none` for a frame that is not JSON: the error is only logged.
unfoldable pub on_message : Option Frame → Connection → Connection × List Effect
unfolding is_notification_event is_coop_social_event
on_message none c = (c, [])
on_message (some f) c =
    if f.message.event === event_open
    then (c, [])
    else if is_coop_social_event f.message.event
    then (c, social_event_received c.subscription_id f.message ∷ [])
    else if not (relevant_and_valid f)
    then (c, [])
    else (
      record c { since = some f.message.id },
      notification_received c.subscription_id f.message ∷ [],
    )

-- `onclose`, with the timer that is set unless the close was clean.
unfoldable pub on_close : Bool → ℕ → Connection → Connection × List Effect
unfolding retry_seconds
on_close true timer c = (record c { ws = none }, [])
on_close false timer c = (
  record c { retry_count = c.retry_count + 1; retry_timeout = some timer },
  set_timeout timer (retry_seconds c.retry_count * 1000)
      ∷ state_changed c.subscription_id connecting
      ∷ [],
)

unfoldable pub close : Connection → Connection × List Effect
close c = (
  record c { ws = none; retry_timeout = none },
  (elim c.ws [ none ↦ [] | some socket ↦ close_socket socket ∷ [] ])
      ++ (elim c.retry_timeout [ none ↦ [] | some timer ↦ clear_timeout timer ∷ [] ]),
)

-- The encoders of js-base64 are parameters.
module _ (encode_base64 encode_base64_url : String → String) where
  unfoldable pub auth_param : User → String
  auth_param user = elim user.password [
    | none ↦ encode_base64_url (bearer_auth (elim user.token [ none ↦ "undefined" | some t ↦ t ]))
    | some password ↦
        if truthy (some password)
        then encode_base64_url (basic_auth encode_base64 user.username password)
        else encode_base64_url (bearer_auth (elim user.token [ none ↦ "undefined" | some t ↦ t ]))
  ]

  unfoldable pub ws_params : Connection → List String
  unfolding auth_param
  ws_params c =
      (elim c.since [ none ↦ [] | some id ↦ if truthy (some id) then ("since=" & id) ∷ [] else [] ])
      ++ (elim c.user [ none ↦ [] | some user ↦ ("auth=" & auth_param user) ∷ [] ])

  unfoldable pub ws_url : Connection → String
  unfolding ws_params
  ws_url c = elim (ws_params c) [
    | [] ↦ topic_url_ws c.base_url c.topic
    | p ∷ ps ↦ topic_url_ws c.base_url c.topic & "?" & (elim ps [ [] ↦ p | q ∷ qs ↦ p & "&" & q ])
  ]
