-- ===== src/ServiceWorker/Withdraw.antt =====
-- web/public/sw.js: the delete and clear events, beside handleNotification of
-- web/src/components/hooks.js.
use coop_messenger.Prelude.{
  String, ◌≡◌, refl, sym, ap, ◌∙◌, true, false, Option, none, some, arith, eq_iff, ◌===◌, truthy,
  or_else,
}
use coop_messenger.Events.{
  event_message, event_message_delete, event_message_clear, webpush_event_message,
}
use coop_messenger.Types.{Subscription, Session}
use coop_messenger.Db.{Dexie, Db}
use coop_messenger.Table.Laws.{get-key}
use coop_messenger.Subscriptions.{get, set_last, sequence_of}
use coop_messenger.Subscriptions.Stored.{
  delete_notification_by_sequence_id, mark_notification_read_by_sequence_id,
}
use coop_messenger.Hooks.{handle_notification}
use coop_messenger.Hooks.Sequences.{deleted, marked}
use coop_messenger.ServiceWorker.{
  PushData, handle_push, handle_push_message_delete, handle_push_message_clear,
}

-- A sequence id that is there is the sequence of the message, whatever stands in for a missing one.
or_else-truthy : (o : Option String) (a b : String) → truthy o ≡ true → or_else o a ≡ or_else o b
or_else-truthy none a b t = ground arith
or_else-truthy (some s) a b t = ground arith

or_else_nonempty : (o : Option String) (a : String) → truthy o ≡ true → (or_else o a === "") ≡ false
or_else_nonempty none a t = ground arith
or_else_nonempty (some s) a t = ground (arith, eq_iff s "")

module _ (d : Dexie) where
  dispatched-delete :
      (push : PushData) (db : Db d)
      → push.event ≡ webpush_event_message
      → push.message.event ≡ event_message_delete
      → handle_push d push db ≡ handle_push_message_delete d push db
  unfolding handle_push
  dispatched-delete push db e f =
      let message : (push.event === webpush_event_message) ≡ true =
        (eq_iff push.event webpush_event_message).1 e in
      let kind : (push.message.event === event_message_delete) ≡ true =
        (eq_iff push.message.event event_message_delete).1 f in
      let other : (push.message.event === event_message) ≡ false =
        ap (λ x. x === event_message) f in
      ground (arith, message, kind, other)

  db-handle_push_message_delete :
      (s : Subscription) (push : PushData) (db : Db d)
      → get d push.subscription_id db ≡ some s
      → truthy push.message.sequence_id ≡ true
      → (handle_push_message_delete d push db).db
        ≡ set_last d push.subscription_id push.message.id (
            delete_notification_by_sequence_id d push.subscription_id (sequence_of push.message) db)
  unfolding handle_push_message_delete
  db-handle_push_message_delete s push db found t =
      let nonempty = or_else_nonempty push.message.sequence_id push.message.id t in
      let own = or_else-truthy push.message.sequence_id "" push.message.id t in
      ground (arith, found, own, nonempty)

  dispatched-clear :
      (push : PushData) (db : Db d)
      → push.event ≡ webpush_event_message
      → push.message.event ≡ event_message_clear
      → handle_push d push db ≡ handle_push_message_clear d push db
  unfolding handle_push
  dispatched-clear push db e f =
      let message : (push.event === webpush_event_message) ≡ true =
        (eq_iff push.event webpush_event_message).1 e in
      let kind : (push.message.event === event_message_clear) ≡ true =
        (eq_iff push.message.event event_message_clear).1 f in
      let other : (push.message.event === event_message) ≡ false =
        ap (λ x. x === event_message) f in
      let third : (push.message.event === event_message_delete) ≡ false =
        ap (λ x. x === event_message_delete) f in
      ground (arith, message, kind, other, third)

  db-handle_push_message_clear :
      (s : Subscription) (push : PushData) (db : Db d)
      → get d push.subscription_id db ≡ some s
      → truthy push.message.sequence_id ≡ true
      → (handle_push_message_clear d push db).db
        ≡ set_last d push.subscription_id push.message.id (
            mark_notification_read_by_sequence_id d push.subscription_id
              (sequence_of push.message)
              db)
  unfolding handle_push_message_clear
  db-handle_push_message_clear s push db found t =
      let nonempty = or_else_nonempty push.message.sequence_id push.message.id t in
      let own = or_else-truthy push.message.sequence_id "" push.message.id t in
      ground (arith, found, own, nonempty)

  -- A delete event with a sequence id leaves the same database by web push as by WebSocket, but for
  -- the last message id of the subscription, which only the push updates.
  pub handle_push-deleted :
      (session : Session) (s : Subscription) (push : PushData) (db : Db d)
      → get d push.subscription_id db ≡ some s
      → push.event ≡ webpush_event_message
      → push.message.event ≡ event_message_delete
      → truthy push.message.sequence_id ≡ true
      → (handle_push d push db).db
        ≡ set_last d push.subscription_id push.message.id
            (handle_notification d session s push.message db).db
  unfolding get
  handle_push-deleted session s push db found e f t =
      let same : s.id ≡ push.subscription_id =
        get-key d.subscriptions push.subscription_id db.subscriptions s found in
      let right =
        ap (λ o. set_last d push.subscription_id push.message.id o.db)
          (deleted d session s push.message db f t) in
      ap (λ o. o.db) (dispatched-delete push db e f)
      ∙ (db-handle_push_message_delete s push db found t ∙ (rw same refl ∙ sym right))

  -- A clear event with a sequence id leaves the same database by web push as by WebSocket, but for
  -- the last message id of the subscription, which only the push updates.
  handle_push-cleared :
      (session : Session) (s : Subscription) (push : PushData) (db : Db d)
      → get d push.subscription_id db ≡ some s
      → push.event ≡ webpush_event_message
      → push.message.event ≡ event_message_clear
      → truthy push.message.sequence_id ≡ true
      → (handle_push d push db).db
        ≡ set_last d push.subscription_id push.message.id
            (handle_notification d session s push.message db).db
  unfolding get
  handle_push-cleared session s push db found e f t =
      let same : s.id ≡ push.subscription_id =
        get-key d.subscriptions push.subscription_id db.subscriptions s found in
      let right =
        ap (λ o. set_last d push.subscription_id push.message.id o.db)
          (marked d session s push.message db f t) in
      ap (λ o. o.db) (dispatched-clear push db e f)
      ∙ (db-handle_push_message_clear s push db found t ∙ (rw same refl ∙ sym right))
