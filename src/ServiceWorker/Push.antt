-- ===== src/ServiceWorker/Push.antt =====
-- handlePushMessage beside handleNotification: the two ways on which a message arrives.
use coop_messenger.Prelude.{
  String, ◌≡◌, ◌≢◌, refl, ap, false, none, some, [], arith, eq_iff, ◌===◌, if◌then◌else◌, ◌∙◌,
}
use coop_messenger.Types.{Message, Subscription, Session}
use coop_messenger.Db.{Dexie, Db}
use coop_messenger.Table.Laws.{get-delete_where}
use coop_messenger.Subscriptions.{
  sequence_of, in_sequence, set_last, message_with_sequence_id, is_own_message, get,
}
use coop_messenger.Subscriptions.Stored.{
  stored_message, delete_notification_by_sequence_id, delete_matching,
}
use coop_messenger.Errors.{constraint_error}
use coop_messenger.ServiceWorker.{PushData, pushed_message, handle_push_message}

-- The rows that the two ways store differ in one thing: the user's own message is read on arrival
-- by WebSocket, and unread on arrival by web push, like any other message.
pushed_message-stored_message :
    (session : Session) (sub : String) (m : Message)
    → ((pushed_message sub m).new ≡ some 1)
      × ((stored_message session sub m).new ≡ some (if is_own_message session m then 0 else 1))
      × (pushed_message sub m ≡ record (stored_message session sub m) { new = some 1 })
unfolding pushed_message stored_message
pushed_message-stored_message session sub m = (refl, refl, refl)

id-pushed_message : (sub : String) (m : Message) → (pushed_message sub m).id ≡ m.id
unfolding pushed_message message_with_sequence_id
id-pushed_message sub m = ground arith

module _ (d : Dexie) where
  add-pushed_taken :
      (sub : String) (m old : Message) (rows : d.notifications.Rows)
      → d.notifications.get m.id rows ≡ some old
      → d.notifications.add (pushed_message sub m) rows ≡ none
  add-pushed_taken sub m old rows h =
      let taken : d.notifications.get (pushed_message sub m).id rows ≡ some old =
        ap (λ k. d.notifications.get k rows) (id-pushed_message sub m) ∙ h in
      ground (arith, d.notifications.add_lem (pushed_message sub m) rows)

  -- The database after a push that was stored.
  abbrev pushed_db : PushData → Db d → Db d
  pushed_db push db =
      let cleared =
        delete_notification_by_sequence_id d push.subscription_id (sequence_of push.message) db in
      set_last d push.subscription_id push.message.id (record cleared {
        notifications =
            d.notifications.put (pushed_message push.subscription_id push.message)
              cleared.notifications;
      })

  get-cleared_other :
      (sub seq k : String) (old : Message) (db : Db d)
      → d.notifications.get k db.notifications ≡ some old
      → in_sequence sub seq old ≡ false
      → d.notifications.get k (delete_notification_by_sequence_id d sub seq db).notifications
        ≡ some old
  unfolding delete_notification_by_sequence_id delete_matching
  get-cleared_other sub seq k old db taken other =
      get-delete_where d.notifications k (in_sequence sub seq) db.notifications
      ∙ rw (taken, other) refl

  -- If a push is for a subscription that exists, its sequence id is not empty and its own id is
  -- stored for another sequence, the push is lost: what was stored of its sequence is
  -- deleted, nothing is stored in its place and the handler throws.
  handle_push_message_conflict :
      (s : Subscription) (push : PushData) (db : Db d) (old : Message)
      → get d push.subscription_id db ≡ some s
      → sequence_of push.message ≢ ""
      → d.notifications.get push.message.id db.notifications ≡ some old
      → in_sequence push.subscription_id (sequence_of push.message) old ≡ false
      → handle_push_message d push db ≡ record {
        db =
            delete_notification_by_sequence_id d push.subscription_id (sequence_of push.message) db;
        effects = [];
        thrown = some constraint_error;
      }
  unfolding handle_push_message
  handle_push_message_conflict s push db old found nonempty taken other =
      let cleared =
        delete_notification_by_sequence_id d push.subscription_id (sequence_of push.message) db in
      let kept : d.notifications.get push.message.id cleared.notifications ≡ some old =
        get-cleared_other push.subscription_id (sequence_of push.message) push.message.id old db
          taken other in
      let some_sequence : (sequence_of push.message === "") ≡ false =
        ground (arith, eq_iff (sequence_of push.message) "") in
      let lost =
        add-pushed_taken push.subscription_id push.message old cleared.notifications kept in
      ground (arith, lost)
