-- ===== src/Hooks.antt =====
-- web/src/components/hooks.js: what the client does with a message from a WebSocket. Effects on the
-- browser and on other components are listed in order; an exception stops a handler.
pub mod Sequences
pub mod Delivery
use coop_messenger.Prelude.{
  String, Bool, not, ◌&&◌, Option, none, some, List, [], ◌∷◌, ◌===◌, truthy, if◌then◌else◌,
}
use coop_messenger.Events.{event_message_delete, event_message_clear}
use coop_messenger.Types.{Message, Subscription, Session}
use coop_messenger.Db.{Dexie, Db}
use coop_messenger.Errors.{AppError, Result, ok, raise}
use coop_messenger.Subscriptions.{sequence_of, get, notify, Shown, skipped, shown}
use coop_messenger.Subscriptions.Stored.{
  add_notification, delete_notification_by_sequence_id, mark_notification_read_by_sequence_id,
}

pub data Effect : Type 0 where
  cancel : Subscription → Message → Effect
  show : Subscription → Message → Effect
  account_sync : Effect

pub record Outcome (d : Dexie) : Type 0 where
  pub db : Db d
  pub effects : List Effect
  pub thrown : Option AppError

module _ (d : Dexie) where
  abbrev pub done : Db d → List Effect → Outcome d
  done db effects = record { db = db; effects = effects; thrown = none }

  -- The last step for a message that was added.
  unfoldable pub notify_added : Session → String → Message → Db d → Outcome d
  notify_added session subscription_id m db = elim (notify d session subscription_id m db) [
    | raise e ↦ record { db = db; effects = []; thrown = some e }
    | ok s ↦ elim s [ skipped ↦ done db [] | shown sub m' ↦ done db (show sub m' ∷ []) ]
  ]

  -- The branch for a regular message: delete the existing ones and add the new one.
  unfoldable pub replace_notification : Session → Subscription → Message → Db d → Outcome d
  unfolding notify_added
  replace_notification session s m db =
      let cleared : Db d =
        if sequence_of m === ""
        then db
        else delete_notification_by_sequence_id d s.id (sequence_of m) db in
      let (db', added) = add_notification d session s.id m cleared in
      if added then notify_added session s.id m db' else done db' []

  unfoldable pub handle_notification : Session → Subscription → Message → Db d → Outcome d
  unfolding replace_notification
  handle_notification session s m db =
      if m.event === event_message_delete && truthy m.sequence_id
      then done (delete_notification_by_sequence_id d s.id (sequence_of m) db) (cancel s m ∷ [])
      else if m.event === event_message_clear && truthy m.sequence_id
      then done (mark_notification_read_by_sequence_id d s.id (sequence_of m) db) (cancel s m ∷ [])
      else replace_notification session s m db

  -- `parse_event` is `JSON.parse(message.message).event`, which may throw; the error is logged.
  unfoldable pub handle_internal_message :
      (Option String → Result (Option String)) → Message → Db d → Outcome d
  handle_internal_message parse_event m db = elim (parse_event m.message) [
    | raise e ↦ done db []
    | ok event ↦ elim event [
      | none ↦ done db []
      | some name ↦ if name === "sync" then done db (account_sync ∷ []) else done db []
    ]
  ]

  -- A message for a subscription that is gone is dropped.
  unfoldable pub handle_message :
      (Option String → Result (Option String)) → Session → String → Message → Db d → Outcome d
  unfolding handle_notification handle_internal_message
  handle_message parse_event session subscription_id m db = elim (get d subscription_id db) [
    | none ↦ done db []
    | some s ↦
        if s.internal
        then handle_internal_message parse_event m db
        else handle_notification session s m db
  ]
