-- ===== src/Tests/Messages.antt =====
-- web/src/app/SubscriptionManager.js, web/src/components/hooks.js and web/public/sw.js on two subscriptions with three messages.
use coop_messenger.Prelude.{◌≡◌, refl, not, ◌&&◌, none, some, map, arith, eq_iff}
use coop_messenger.Events.{event_message}
use coop_messenger.Types.{Message}
use coop_messenger.Db.{assoc_dexie}
use coop_messenger.Subscriptions.{get, in_sequence, in_subscription, is_new, sync_from_remote}
use coop_messenger.Subscriptions.Stored.{stored_message}
use coop_messenger.Subscriptions.Stored.Laws.{stored}
use coop_messenger.Subscriptions.Sync.{remote_id, Synced, sync_from_remote-Synced}
use coop_messenger.Subscriptions.SyncedMessages.{stored-sync_from_remote}
use coop_messenger.Hooks.{handle_notification}
use coop_messenger.Hooks.Sequences.{handle_notification-replaces}
use coop_messenger.ServiceWorker.{PushData}
use coop_messenger.Utils.Urls.{topic_url}
use coop_messenger.Tests.{home, alice, sent, chat, news, some_db, remotes}

sync_from_remote-Synced_example :
    Synced
      (map remote_id remotes)
      "https://coop/news"
      (get assoc_dexie "https://coop/news" some_db)
      (get assoc_dexie "https://coop/news" (sync_from_remote assoc_dexie home remotes none some_db))
sync_from_remote-Synced_example =
    sync_from_remote-Synced assoc_dexie home remotes none some_db "https://coop/news"

stored-sync_from_remote_example :
    stored assoc_dexie
      (λ n. in_subscription "https://coop/news" n && is_new n)
      (sync_from_remote assoc_dexie home remotes none some_db)
    ≡ 0
unfolding get topic_url
stored-sync_from_remote_example =
    stored-sync_from_remote assoc_dexie home remotes none some_db "https://coop/news" news is_new
      refl

-- a new version of the first message
abbrev edited : Message
edited = sent "m4" event_message 400 (some "s1")

handle_notification-replaces_example :
    (stored assoc_dexie
        (in_sequence chat.id "s1")
        (handle_notification assoc_dexie alice chat edited some_db).db
      ≡ 1)
    × (assoc_dexie.notifications.get "m4"
          (handle_notification assoc_dexie alice chat edited some_db).db.notifications
        ≡ some (stored_message alice chat.id edited))
    × (stored assoc_dexie
          (λ n. not (in_sequence chat.id "s1" n) && is_new n)
          (handle_notification assoc_dexie alice chat edited some_db).db
        ≡ stored assoc_dexie (λ n. not (in_sequence chat.id "s1" n) && is_new n) some_db)
handle_notification-replaces_example =
    handle_notification-replaces assoc_dexie alice chat edited some_db is_new refl refl
      (ground (arith, eq_iff "s1" "")) (λ old e. ground (arith, e))

abbrev pushed : PushData
pushed = record { event = "message"; subscription_id = "https://coop/chat"; message = edited }
