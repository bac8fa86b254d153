-- ===== src/ServiceWorker.antt =====
-- web/public/sw.js: the service worker's handling of web push messages.
pub mod Push
pub mod Withdraw
pub mod Click
use coop_messenger.Prelude.{
  ℕ, String, Bool, not, ◌&&◌, Option, none, some, List, [], ◌∷◌, count, ◌===◌, truthy, or_else,
  if◌then◌else◌,
}
use coop_messenger.Events.{
  event_message, event_message_delete, event_message_clear, webpush_event_message,
  webpush_event_subscription_expiring,
}
use coop_messenger.Types.{Message, Subscription}
use coop_messenger.Db.{Dexie, Db}
use coop_messenger.Errors.{AppError, constraint_error}
use coop_messenger.Utils.Urls.{◌&◌}
use coop_messenger.Subscriptions.{message_with_sequence_id, sequence_of, get, set_last, is_new}
use coop_messenger.Subscriptions.Stored.{
  delete_notification_by_sequence_id, mark_notification_read_by_sequence_id,
}

-- The payload of a push: `webPushPayload` of server/types.go.
pub record PushData : Type 0 where
  pub event : String
  pub subscription_id : String
  pub message : Message

pub data Effect : Type 0 where
  set_app_badge : ℕ → Effect
  post_message : Message → Effect
  show_notification : Subscription → Message → Effect
  close_notifications : String → Effect
  show_subscription_expiring : Effect
  show_unknown : Effect

pub record Outcome (d : Dexie) : Type 0 where
  pub db : Db d
  pub effects : List Effect
  pub thrown : Option AppError

-- notificationUtils.js: notificationTag
unfoldable pub notification_tag : String → String → String → String
notification_tag base_url topic sequence_id = base_url & "/" & topic & "/" & sequence_id

-- The row that a push stores.
unfoldable pub pushed_message : String → Message → Message
unfolding message_with_sequence_id
pushed_message subscription_id m = record (message_with_sequence_id m) {
  subscription_id = some subscription_id;
  new = some 1;
}

module _ (d : Dexie) where
  abbrev pub done : Db d → List Effect → Outcome d
  done db effects = record { db = db; effects = effects; thrown = none }

  -- `db.notifications.where({ new: 1 }).count()`
  unfoldable pub badge_count : Db d → ℕ
  badge_count db = count is_new (d.notifications.to_array db.notifications)

  -- `if (sequenceId) { … }`
  abbrev with_sequence : String → (String → Db d → Db d) → Db d → Db d
  with_sequence seq f db = if seq === "" then db else f seq db

  unfoldable pub handle_push_message : PushData → Db d → Outcome d
  unfolding pushed_message badge_count set_last
  handle_push_message push db = elim (get d push.subscription_id db) [
    | none ↦ done db []
    | some s ↦
        let m = push.message in
        let cleared =
          with_sequence (sequence_of m) (delete_notification_by_sequence_id d push.subscription_id)
            db in
        elim (d.notifications.add (pushed_message push.subscription_id m) cleared.notifications) [
          | none ↦ record { db = cleared; effects = []; thrown = some constraint_error }
          | some rows ↦
              let db' =
                set_last d push.subscription_id m.id (record cleared { notifications = rows }) in
              done db'
                (set_app_badge (badge_count db') ∷ post_message m ∷ show_notification s m ∷ [])
        ]
  ]

  unfoldable pub handle_push_message_delete : PushData → Db d → Outcome d
  unfolding notification_tag set_last
  handle_push_message_delete push db = elim (get d push.subscription_id db) [
    | none ↦ done db []
    | some s ↦
        let m = push.message in
        let cleared =
          with_sequence (or_else m.sequence_id "")
            (delete_notification_by_sequence_id d push.subscription_id) db in
        done (set_last d push.subscription_id m.id cleared)
          (close_notifications (notification_tag s.base_url s.topic (sequence_of m)) ∷ [])
  ]

  unfoldable pub handle_push_message_clear : PushData → Db d → Outcome d
  unfolding notification_tag badge_count set_last
  handle_push_message_clear push db = elim (get d push.subscription_id db) [
    | none ↦ done db []
    | some s ↦
        let m = push.message in
        let marked =
          with_sequence (or_else m.sequence_id "")
            (mark_notification_read_by_sequence_id d push.subscription_id) db in
        let db' = set_last d push.subscription_id m.id marked in
        done db' (
          close_notifications (notification_tag s.base_url s.topic (sequence_of m))
          ∷ set_app_badge (badge_count db')
          ∷ [])
  ]

  unfoldable pub handle_push : PushData → Db d → Outcome d
  unfolding handle_push_message handle_push_message_delete handle_push_message_clear
  handle_push push db =
      if push.event === webpush_event_message
      then (if push.message.event === event_message
          then handle_push_message push db
          else if push.message.event === event_message_delete
          then handle_push_message_delete push db
          else if push.message.event === event_message_clear
          then handle_push_message_clear push db
          else done db (show_unknown ∷ []))
      else if push.event === webpush_event_subscription_expiring
      then done db (show_subscription_expiring ∷ [])
      else done db (show_unknown ∷ [])
