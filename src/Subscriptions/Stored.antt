-- ===== src/Subscriptions/Stored.antt =====
-- web/src/app/SubscriptionManager.js: the methods on stored notifications.
pub mod Laws
use coop_messenger.Prelude.{
  ℕ, String, Bool, true, false, ◌&&◌, ◌||◌, none, some, List, [], ◌∷◌, map, ◌===◌, ltb,
  if◌then◌else◌,
}
use coop_messenger.Events.{event_message_delete, event_message_clear}
use coop_messenger.Types.{Message, Session}
use coop_messenger.Db.{Dexie, Db}
use coop_messenger.Errors.{Result, ok, raise, type_error}
use coop_messenger.Subscriptions.{
  message_with_sequence_id, in_sequence, in_subscription, is_new, mark_read, is_own_message,
  set_last,
}

-- `array.at(-1).id`, on no element a TypeError
unfoldable pub last_id : List Message → Result String
last_id [] = raise type_error
last_id (m ∷ []) = ok m.id
last_id (m ∷ m' ∷ ms) = last_id (m' ∷ ms)

-- The row that `addNotification` stores.
unfoldable pub stored_message : Session → String → Message → Message
unfolding message_with_sequence_id
stored_message session subscription_id m = record (message_with_sequence_id m) {
  subscription_id = some subscription_id;
  new = some (if is_own_message session m then 0 else 1);
}

module _ (d : Dexie) where
  -- Whether the message was new, false if it is there already, and the database. A failure inside
  -- the `try` is only logged.
  unfoldable pub add_notification : Session → String → Message → Db d → Db d × Bool
  unfolding stored_message set_last
  add_notification session subscription_id m db = elim (d.notifications.get m.id db.notifications) [
    | some existing ↦ (db, false)
    | none ↦
        if m.event === event_message_delete || m.event === event_message_clear
        then (db, false)
        else elim (d.notifications.add (stored_message session subscription_id m)
            db.notifications) [
              | none ↦ (db, true)
              | some rows ↦
                  (set_last d subscription_id m.id (record db { notifications = rows }), true)
            ]
  ]

  unfoldable pub add_notifications : String → List Message → Db d → Result (Db d)
  unfolding last_id message_with_sequence_id set_last
  add_notifications subscription_id ms db = elim (last_id ms) [
    | raise e ↦ raise e
    | ok last ↦ ok (
        set_last d subscription_id last (record db {
          notifications =
              d.notifications.bulk_put
                (map
                  (λ m. record (message_with_sequence_id m) {
                    subscription_id = some subscription_id;
                  })
                  ms)
                db.notifications;
        }))
  ]

  unfoldable pub update_notification : Message → Db d → Db d × Bool
  update_notification m db = elim (d.notifications.get m.id db.notifications) [
    | none ↦ (db, false)
    | some existing ↦ (record db { notifications = d.notifications.put m db.notifications }, true)
  ]

  unfoldable pub delete_notification : String → Db d → Db d
  delete_notification id db = record db {
    notifications = d.notifications.delete id db.notifications;
  }

  -- `this.db.notifications.where(…).delete()`
  unfoldable pub delete_matching : (Message → Bool) → Db d → Db d
  delete_matching p db = record db {
    notifications = d.notifications.delete_where p db.notifications;
  }

  -- `this.db.notifications.where(…).modify({ new: 0 })`
  unfoldable pub mark_matching : (Message → Bool) → Db d → Db d
  mark_matching p db = record db {
    notifications = d.notifications.modify_where p mark_read db.notifications;
  }

  unfoldable pub delete_notification_by_sequence_id : String → String → Db d → Db d
  unfolding delete_matching
  delete_notification_by_sequence_id subscription_id sequence_id =
      delete_matching (in_sequence subscription_id sequence_id)

  unfoldable pub delete_notifications : String → Db d → Db d
  unfolding delete_matching
  delete_notifications subscription_id = delete_matching (in_subscription subscription_id)

  unfoldable pub mark_notification_read : String → Db d → Db d
  unfolding mark_matching
  mark_notification_read id = mark_matching (λ n. n.id === id)

  unfoldable pub mark_notification_read_by_sequence_id : String → String → Db d → Db d
  unfolding mark_matching
  mark_notification_read_by_sequence_id subscription_id sequence_id =
      mark_matching (in_sequence subscription_id sequence_id)

  unfoldable pub mark_notifications_read : String → Db d → Db d
  unfolding mark_matching
  mark_notifications_read subscription_id =
      mark_matching (λ n. in_subscription subscription_id n && is_new n)

  unfoldable pub prune_notifications : ℕ → Db d → Db d
  unfolding delete_matching
  prune_notifications threshold = delete_matching (λ n. ltb n.time threshold)
