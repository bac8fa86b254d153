-- ===== src/WebPush.antt =====
-- Which subscriptions get their messages by web push and which over a WebSocket:
-- web/src/app/SubscriptionManager.js (webPushTopics, updateWebPushSubscriptions), web/src/app/Api.js
-- (updateWebPush, deleteWebPush) and `wsSubscriptions` of web/src/components/hooks.js; with
-- web/src/app/SlashCommands.js (executeServerCommand) and web/src/app/VersionChecker.js (checkVersion).
pub mod Routes
pub mod Listener
use coop_messenger.Prelude.{
  String, Bool, true, false, not, ◌&&◌, Option, none, some, List, [], ◌∷◌, map, filter, includes,
  ◌===◌, eqb, truthy, or_else, if◌then◌else◌,
}
use coop_messenger.Types.{Config, Session, Subscription, PrefValue, text, flag}
use coop_messenger.Db.{Dexie, Db}
use coop_messenger.Utils.Urls.{◌&◌}
use coop_messenger.Utils.Auth.{maybe_with_auth, maybe_with_bearer_auth, with_header}
use coop_messenger.Prefs.{web_push_enabled}
use coop_messenger.Users.{get}
use coop_messenger.Account.{Request, str, strs}

-- The truth value of a preference that may be missing.
abbrev pub is_on : Option PrefValue → Bool
is_on none = false
is_on (some (text s)) = not (s === "")
is_on (some (flag b)) = b

-- What the browser's push subscription is serialized to.
pub record PushSubscription : Type 0 where
  pub endpoint : String
  pub auth : String
  pub p256dh : String

-- `subscriptions` or `webPushTopics` may not be there yet.
unfoldable pub ws_subscriptions :
    Option (List Subscription) → Option (List String) → List Subscription
ws_subscriptions none topics = []
ws_subscriptions (some subs) none = []
ws_subscriptions (some subs) (some topics) = filter (λ s. not (includes s.topic topics)) subs

module _ (d : Dexie) (config : Config) where
  abbrev pub is_pushed : Subscription → Bool
  is_pushed s = ((s.base_url === config.base_url) && eqb s.muted_until 0) && not s.internal

  unfoldable pub web_push_topics : Bool → Db d → List String
  web_push_topics push_possible db =
      if not push_possible
      then []
      else if not (is_on (web_push_enabled d db))
      then []
      else map (λ s. s.topic)
          (filter (λ s. not s.internal)
            (filter (λ s. (s.base_url === config.base_url) && eqb s.muted_until 0)
              (d.subscriptions.to_array db.subscriptions)))

  module _ (encode_base64 : String → String) (session : Session) where
    unfoldable pub update_web_push : PushSubscription → List String → Db d → Request
    update_web_push push topics db = record {
      url = config.base_url & "/v1/webpush";
      method = "POST";
      headers = maybe_with_auth encode_base64 [] (get d config session config.base_url db);
      body = some (
          ("endpoint", str push.endpoint)
          ∷ ("auth", str push.auth)
          ∷ ("p256dh", str push.p256dh)
          ∷ ("topics", strs topics)
          ∷ []);
    }

    unfoldable pub delete_web_push : PushSubscription → Db d → Request
    delete_web_push push db = record {
      url = config.base_url & "/v1/webpush";
      method = "DELETE";
      headers = maybe_with_auth encode_base64 [] (get d config session config.base_url db);
      body = some (("endpoint", str push.endpoint) ∷ []);
    }

    -- `browser_subscription` is `notifier.webPushSubscription`.
    unfoldable pub update_web_push_subscriptions :
        (Bool → Option PushSubscription) → List String → Db d → Option Request
    unfolding update_web_push delete_web_push
    update_web_push_subscriptions browser_subscription [] db = elim (browser_subscription false) [
      | none ↦ none
      | some push ↦ some (delete_web_push push db)
    ]
    update_web_push_subscriptions browser_subscription (t ∷ ts) db =
        elim (browser_subscription true) [
          | none ↦ none
          | some push ↦ some (update_web_push push (t ∷ ts) db)
        ]

-- The request of a command that the server runs.
unfoldable pub execute_server_command : Config → Session → String → String → String → Request
execute_server_command config session command topic args = record {
  url = config.base_url & "/v1/coop/commands";
  method = "POST";
  headers = with_header (maybe_with_bearer_auth [] session.token) "Content-Type" "application/json";
  body = some (("command", str command) ∷ ("topic", str topic) ∷ ("args", str args) ∷ []);
}

-- `checkVersion`: whether the listener is called. The response is missing where the fetch fails,
-- and else its `ok` with the hash in it.
unfoldable pub check_version : Option String → Bool → Option (Bool × Option String) → Bool
check_version initial_config_hash has_listener none = false
check_version initial_config_hash has_listener (some (ok, current_hash)) =
    truthy initial_config_hash
    && (ok
        && (truthy current_hash
            && (not (or_else current_hash "" === or_else initial_config_hash "") && has_listener)))
