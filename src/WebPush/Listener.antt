-- ===== src/WebPush/Listener.antt =====
-- The subscription of the browser to web push, and how the server is told of it: webPushSubscription of
-- web/src/app/Notifier.js and useWebPushListener of web/src/components/hooks.js.
pub mod Endpoints
use coop_messenger.Prelude.{
  String, Bool, true, false, not, ◌&&◌, Option, none, some, List, [], ◌∷◌, ◌++◌, foldl, ◌===◌,
  if◌then◌else◌,
}
use coop_messenger.Types.{Config, Session}
use coop_messenger.Db.{Dexie, Db}
use coop_messenger.Account.{Request}
use coop_messenger.WebPush.{PushSubscription, update_web_push_subscriptions}

-- What a promise comes to.
pub data BrowserAnswer : Type 0 where
  thrown : BrowserAnswer
  returned : Option PushSubscription → BrowserAnswer

-- `existing` is what `pushManager.getSubscription` gives, `answer` what `pushManager.subscribe` does, if
-- it is not rejected; the browser has the new subscription from then on. Without a service worker
-- `serviceWorkerRegistration` throws.
unfoldable pub web_push_subscription :
    (registered : Bool) (answer : Option PushSubscription) (has_web_push_topics : Bool)
    (existing : Option PushSubscription)
    → BrowserAnswer × Option PushSubscription
web_push_subscription false answer has_topics existing = (thrown, existing)
web_push_subscription true answer has_topics (some p) = (returned (some p), some p)
web_push_subscription true answer false none = (returned none, none)
web_push_subscription true none true none = (thrown, none)
web_push_subscription true (some p) true none = (returned (some p), some p)

-- `prevUpdate`, which is the text of topics and `pushPossible`; what the browser has; and the requests
-- that were sent.
pub record Listener : Type 0 where
  pub prev_update : Option (List String × Bool)
  pub existing : Option PushSubscription
  pub requests : List Request

abbrev pub has_any : List String → Bool
has_any [] = false
has_any (t ∷ ts) = true

abbrev pub same_strings : List String → List String → Bool
same_strings [] [] = true
same_strings [] (t ∷ ts) = false
same_strings (s ∷ ss) [] = false
same_strings (s ∷ ss) (t ∷ ts) = (s === t) && same_strings ss ts

abbrev pub same_flag : Bool → Bool → Bool
same_flag true b = b
same_flag false b = not b

-- `nextUpdate === prevUpdate`
abbrev pub is_update : Option (List String × Bool) → List String → Bool → Bool
is_update none topics push_possible = false
is_update (some (ts, b)) topics push_possible = same_strings ts topics && same_flag b push_possible

module _ (d : Dexie) (config : Config) (encode_base64 : String → String) (session : Session) where
  -- One run of the effect, with what it finds.
  pub record Run : Type 0 where
    pub topics : Option (List String)
    pub push_possible : Bool
    pub registered : Bool
    pub answer : Option PushSubscription
    pub db : Db d
    pub succeeds : Request → Bool
    -- what the browser has had since before this run, if it is not what it had after the last one
    pub replaced : Option (Option PushSubscription)

  -- The request of `updateWebPushSubscriptions`, if there is one, and `setPrevUpdate` unless it fails.
  unfoldable pub send : Run → List String → Option Request → Listener → Listener
  send run topics none l = record l { prev_update = some (topics, run.push_possible) }
  send run topics (some request) l =
      let sent : Listener = record l { requests = l.requests ++ request ∷ [] } in
      if run.succeeds request
      then record sent { prev_update = some (topics, run.push_possible) }
      else sent

  unfoldable pub after_subscription :
      Run → List String → BrowserAnswer × Option PushSubscription → Listener → Listener
  unfolding send update_web_push_subscriptions
  after_subscription run topics (thrown, existing) l = record l { existing = existing }
  after_subscription run topics (returned push, existing) l =
      send run topics
        (update_web_push_subscriptions d config encode_base64 session (λ has_any. push) topics
          run.db)
        (record l { existing = existing })

  unfoldable pub refresh_topics : Run → List String → Listener → Listener
  unfolding after_subscription web_push_subscription
  refresh_topics run topics l =
      if is_update l.prev_update topics run.push_possible
      then l
      else after_subscription run topics
          (web_push_subscription run.registered run.answer (has_any topics) l.existing) l

  -- The effect of `useWebPushListener`. The topics may not be there yet.
  unfoldable pub run_effect : Run → Listener → Listener
  unfolding refresh_topics
  run_effect run l = elim run.topics [ none ↦ l | some topics ↦ refresh_topics run topics l ]

  -- The browser drops the subscription, as when the permission is taken back, or has another one.
  abbrev pub browser_changed : Option (Option PushSubscription) → Listener → Listener
  browser_changed none l = l
  browser_changed (some existing) l = record l { existing = existing }

  abbrev pub run_effects : Listener → List Run → Listener
  run_effects = foldl (λ l run. run_effect run (browser_changed run.replaced l))
