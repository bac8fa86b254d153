-- ===== src/WebPush/Routes.antt =====
-- How each topic is served: by web push or over a WebSocket.
use coop_messenger.Prelude.{
  String, ◌≡◌, refl, Bool, true, not, ◌&&◌, some, List, [], ◌∷◌, map, filter, any, includes, ◌===◌,
  arith, eq_iff, ap, eqb,
}
use coop_messenger.Types.{Config, Subscription}
use coop_messenger.Db.{Dexie, Db}
use coop_messenger.Prefs.{web_push_enabled}
use coop_messenger.WebPush.{is_on, is_pushed, web_push_topics, ws_subscriptions}

-- Equal topics are in the same lists.
includes_congr :
    (a b : String) (topics : List String) → (a === b) ≡ true → includes a topics ≡ includes b topics
includes_congr a b topics e = ap (λ t. includes t topics) ((eq_iff a b).0 e)

-- The subscriptions of one server and topic that are left are all of them, or none if the topic is
-- pushed.
any-filter_topics :
    (base_url topic : String) (topics : List String) (subs : List Subscription)
    → any
        (λ s. (s.base_url === base_url) && (s.topic === topic))
        (filter (λ s. not (includes s.topic topics)) subs)
      ≡ (not (includes topic topics)
          && any (λ s. (s.base_url === base_url) && (s.topic === topic)) subs)
any-filter_topics base_url topic topics [] = ground arith
any-filter_topics base_url topic topics (s ∷ subs) =
    ground
      (arith, any-filter_topics base_url topic topics subs, includes_congr s.topic topic topics)

module _ (d : Dexie) (config : Config) where
  includes-pushed :
      (topic : String) (rows : List Subscription)
      → includes topic (
          map
            (λ s. s.topic)
            (filter
              (λ s. not s.internal)
              (filter (λ s. (s.base_url === config.base_url) && eqb s.muted_until 0) rows)))
        ≡ any (λ s. is_pushed d config s && (s.topic === topic)) rows
  includes-pushed topic [] = refl
  includes-pushed topic (s ∷ rows) = ground (arith, includes-pushed topic rows)

  includes-web_push_topics :
      (topic : String) (push_possible : Bool) (db : Db d)
      → includes topic (web_push_topics d config push_possible db) ≡ (
          push_possible
          && (is_on (web_push_enabled d db)
              && any
                  (λ s. is_pushed d config s && (s.topic === topic))
                  (d.subscriptions.to_array db.subscriptions)))
  unfolding web_push_topics
  includes-web_push_topics topic push_possible db =
      ground (arith, includes-pushed topic (d.subscriptions.to_array db.subscriptions))

  -- A topic is pushed exactly if push is possible and enabled and some subscription of the home
  -- server to it is neither muted nor internal; and of the subscriptions to a topic on any server,
  -- some are kept for the WebSockets exactly if the topic is not pushed. So a subscription of
  -- another server is served by neither when a topic of the same name is pushed.
  pub any-ws_subscriptions :
      (base_url topic : String) (push_possible : Bool) (subs : List Subscription) (db : Db d)
      → (includes topic (web_push_topics d config push_possible db) ≡ (
          push_possible
          && (is_on (web_push_enabled d db)
              && any
                  (λ s. is_pushed d config s && (s.topic === topic))
                  (d.subscriptions.to_array db.subscriptions))))
        × (any
              (λ s. (s.base_url === base_url) && (s.topic === topic))
              (ws_subscriptions (some subs) (some (web_push_topics d config push_possible db)))
            ≡ (not (includes topic (web_push_topics d config push_possible db))
                && any (λ s. (s.base_url === base_url) && (s.topic === topic)) subs))
  unfolding ws_subscriptions
  any-ws_subscriptions base_url topic push_possible subs db = (
    includes-web_push_topics topic push_possible db,
    any-filter_topics base_url topic (web_push_topics d config push_possible db) subs,
  )
