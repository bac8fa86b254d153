-- ===== src/Tests/Client.antt =====
-- web/src/app/Poller.js, web/src/app/Pruner.js and web/src/components/hooks.js: what a poll stores, what
-- is pruned, and which topics are pushed.
use coop_messenger.Prelude.{
  ◌≡◌, refl, true, not, ◌&&◌, some, List, [], ◌∷◌, includes, any, all, arith, ltb, ◌===◌,
}
use coop_messenger.Types.{Message, text, flag}
use coop_messenger.Events.{event_message, event_message_delete}
use coop_messenger.Db.{Db, assoc_dexie}
use coop_messenger.Errors.{ok}
use coop_messenger.JsObject.{
  array_index, assign, goes_before, has_own, in_object, is_inherited, lookup, place, replace,
}
use coop_messenger.Poller.{
  latest_notifications_by_sequence_id, recent_notifications, prune_threshold, poll,
}
use coop_messenger.Poller.Latest.{IsNewest, latest-IsNewest}
use coop_messenger.Poller.Poll.{poll-deleted}
use coop_messenger.Prefs.{delete_after, web_push_enabled}
use coop_messenger.Prelude.Decimal.{number}
use coop_messenger.Pruner.{prune}
use coop_messenger.Pruner.Laws.{prune-prune_threshold}
use coop_messenger.Subscriptions.{in_sequence, is_new}
use coop_messenger.Subscriptions.Stored.Laws.{stored}
use coop_messenger.WebPush.{web_push_topics, ws_subscriptions}
use coop_messenger.WebPush.Routes.{any-ws_subscriptions}
use coop_messenger.Tests.{home, sent, chat, away, some_db}

-- an update of the first sequence, and the deletion of the second
abbrev fetched : List Message
fetched =
    sent "m4" event_message 400 (some "s1")
    ∷ sent "m5" event_message 450 (some "s2")
    ∷ sent "m6" event_message_delete 500 (some "s2")
    ∷ []

latest-IsNewest_example :
    IsNewest "s2" fetched (lookup "s2" (latest_notifications_by_sequence_id fetched))
unfolding is_inherited
latest-IsNewest_example = latest-IsNewest "s2" fetched refl

poll-deleted_example :
    (db' : Db assoc_dexie) × (poll assoc_dexie chat fetched 1000 some_db ≡ ok db')
    × (stored assoc_dexie (in_sequence chat.id "s2") db' ≡ 0)
unfolding latest_notifications_by_sequence_id lookup recent_notifications prune_threshold
    delete_after in_object has_own is_inherited assign place goes_before array_index replace
poll-deleted_example =
    poll-deleted assoc_dexie chat fetched 1000 some_db "s2" (refl, (refl, (refl, tt)))

-- the retention time is 1 second
abbrev short_db : Db assoc_dexie
short_db = record some_db {
  prefs = assoc_dexie.prefs.put (record { key = "deleteAfter"; value = text "1" }) some_db.prefs;
}

prune-prune_threshold_example :
    (stored assoc_dexie is_new (prune assoc_dexie 251499 short_db)
      ≡ stored assoc_dexie
          (λ n. not (ltb n.time (prune_threshold (some 1) 251499)) && is_new n)
          short_db)
    × (all
          (λ m. not (ltb m.time (prune_threshold (some 1) 251499)))
          (recent_notifications (prune_threshold (some 1) 251499) fetched)
        ≡ true)
unfolding delete_after number
prune-prune_threshold_example =
    prune-prune_threshold assoc_dexie 251499 1 fetched is_new short_db refl (omega arith)

-- web push is enabled, and "chat" is subscribed to on two servers
abbrev push_db : Db assoc_dexie
push_db = record some_db {
  prefs =
      assoc_dexie.prefs.put (record { key = "webPushEnabled"; value = flag true }) some_db.prefs;
}

any-ws_subscriptions_example :
    (includes "chat" (web_push_topics assoc_dexie home true push_db) ≡ true)
    × (any
          (λ s. (s.base_url === "https://other") && (s.topic === "chat"))
          (ws_subscriptions
            (some (chat ∷ away ∷ []))
            (some (web_push_topics assoc_dexie home true push_db)))
        ≡ (not (includes "chat" (web_push_topics assoc_dexie home true push_db)) && true))
unfolding web_push_enabled
any-ws_subscriptions_example =
    any-ws_subscriptions assoc_dexie home "https://other" "chat" true (chat ∷ away ∷ []) push_db
