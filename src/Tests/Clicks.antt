-- ===== src/Tests/Clicks.antt =====
-- web/public/sw.js: a click on a button of a notification, and a push that withdraws one.
use coop_messenger.Prelude.{String, ◌≡◌, refl, true, none, some, [], ◌∷◌, any, arith, eq_iff}
use coop_messenger.Types.{Message, Action}
use coop_messenger.Events.{event_message, event_message_delete}
use coop_messenger.Db.{assoc_dexie}
use coop_messenger.Subscriptions.Stored.{mark_notification_read_by_sequence_id}
use coop_messenger.Subscriptions.Stored.Laws.{stored}
use coop_messenger.Hooks.{handle_notification}
use coop_messenger.Subscriptions.{get, set_last}
use coop_messenger.Utils.Urls.{topic_url}
use coop_messenger.ServiceWorker.{PushData, handle_push}
use coop_messenger.ServiceWorker.Withdraw.{handle_push-deleted}
use coop_messenger.ServiceWorker.Click.{ClickData, ClickEvent, handle_click}
use coop_messenger.ServiceWorker.Click.Windows.{closes, is_unread_of, handle_click-clears}
use coop_messenger.Tests.{alice, sent, chat, some_db}

abbrev confirm : Action
confirm = record {
  id = "a1";
  action = "http";
  label = "Confirm";
  url = "https://coop/confirm";
  clear = true;
  method = none;
  headers = none;
  body = none;
  value = none;
  progress = none;
  error = none;
}

abbrev with_button : Message
with_button = record (sent "m1" event_message 100 (some "s1")) { actions = some (confirm ∷ []) }

abbrev notification : ClickData
notification = record {
  subscription_id = chat.id;
  message = with_button;
  topic_route = "https://coop/chat";
}

abbrev pressed : ClickEvent
pressed = record { action = "Confirm"; content = some notification }

handle_click-clears_example :
    (any closes (handle_click assoc_dexie "https://coop/" [] none pressed some_db).effects ≡ true)
    × (stored assoc_dexie
          (is_unread_of notification)
          (handle_click assoc_dexie "https://coop/" [] none pressed some_db).db
        ≡ 0)
    × ((handle_click assoc_dexie "https://coop/" [] none pressed some_db).db
        ≡ mark_notification_read_by_sequence_id assoc_dexie chat.id "s1" some_db)
handle_click-clears_example =
    handle_click-clears assoc_dexie "https://coop/" [] none pressed notification confirm some_db
      refl (ground (arith, eq_iff "Confirm" "")) refl refl refl (ground (arith, eq_iff chat.id ""))
      (ground (arith, eq_iff "s1" ""))

abbrev withdrawn : String → PushData
withdrawn event = record {
  event = "message";
  subscription_id = chat.id;
  message = sent "m5" event 500 (some "s1");
}

handle_push-deleted_example :
    (handle_push assoc_dexie (withdrawn event_message_delete) some_db).db
    ≡ set_last assoc_dexie chat.id "m5"
        (handle_notification assoc_dexie alice chat
          (withdrawn event_message_delete).message
          some_db).db
unfolding get topic_url
handle_push-deleted_example =
    handle_push-deleted assoc_dexie alice chat (withdrawn event_message_delete) some_db refl refl
      refl refl
