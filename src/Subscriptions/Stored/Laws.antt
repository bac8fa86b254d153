-- ===== src/Subscriptions/Stored/Laws.antt =====
-- The methods on stored notifications, counted: what each leaves, adds and takes away.
use coop_messenger.Prelude.{
  ℕ, String, ◌≡◌, ◌≢◌, refl, Bool, true, false, not, ◌&&◌, ◌||◌, none, some, count, arith, ◌===◌,
  some_eq_ne, if◌then◌else◌, ◌∙◌, count-map, count-filter, count_congr, count-eq-zero, ltb,
}
use coop_messenger.Types.{Message, Session}
use coop_messenger.Events.{event_message_delete, event_message_clear}
use coop_messenger.Db.{Dexie, Db}
use coop_messenger.Subscriptions.{
  message_with_sequence_id, in_subscription, is_new, mark_read, set_last,
}
use coop_messenger.Subscriptions.Stored.{
  stored_message, add_notification, delete_matching, mark_matching, mark_notifications_read,
  prune_notifications,
}

abbrev pub is_unread : String → Message → Bool
is_unread sub n = in_subscription sub n && is_new n

mark_read-is_unread_self :
    (sub : String) (n : Message)
    → is_unread sub (if is_unread sub n then mark_read n else n) ≡ false
mark_read-is_unread_self sub n = ground arith

mark_read-is_unread_ne :
    (sub other : String)
    → other ≢ sub
    → (n : Message)
    → is_unread other (if is_unread sub n then mark_read n else n) ≡ is_unread other n
mark_read-is_unread_ne sub other h n = ground (arith, some_eq_ne n.subscription_id sub other h)

module _ (d : Dexie) where
  -- How many stored notifications pass a test.
  abbrev pub stored : (Message → Bool) → Db d → ℕ
  stored p db = count p (d.notifications.to_array db.notifications)

  abbrev pub unread : String → Db d → ℕ
  unread sub = stored (λ n. in_subscription sub n && is_new n)

  pub stored-delete_matching :
      (p q : Message → Bool) (db : Db d)
      → stored p (delete_matching d q db) ≡ stored (λ n. not (q n) && p n) db
  unfolding delete_matching
  stored-delete_matching p q db =
      rw (d.notifications.to_array-delete_where q db.notifications)
        (count-filter p (λ n. not (q n)) (d.notifications.to_array db.notifications))

  pub stored-mark_matching :
      (p q : Message → Bool) (db : Db d)
      → stored p (mark_matching d q db) ≡ stored (λ n. p (if q n then mark_read n else n)) db
  unfolding mark_matching
  stored-mark_matching p q db =
      rw (d.notifications.to_array-modify_where q mark_read db.notifications (λ n. refl)) (
        count-map p (λ n. if q n then mark_read n else n)
          (d.notifications.to_array db.notifications))

  -- After a subscription is marked as read it has no unread notification; the number of unread ones
  -- of every other subscription, and of all stored ones, is what it was.
  unread-mark_notifications_read :
      (sub other : String) (db : Db d)
      → other ≢ sub
      → (unread sub (mark_notifications_read d sub db) ≡ 0)
        × (unread other (mark_notifications_read d sub db) ≡ unread other db)
        × (stored (λ n. true) (mark_notifications_read d sub db) ≡ stored (λ n. true) db)
  unfolding mark_notifications_read
  unread-mark_notifications_read sub other db h =
      let rows = d.notifications.to_array db.notifications in
      (
        stored-mark_matching (is_unread sub) (is_unread sub) db
            ∙ count-eq-zero _ (mark_read-is_unread_self sub) rows,
        stored-mark_matching (is_unread other) (is_unread sub) db
            ∙ count_congr _ _ (mark_read-is_unread_ne sub other h) rows,
        stored-mark_matching (λ n. true) (is_unread sub) db,
      )

  -- Pruning leaves no notification older than the threshold, and every other one: whatever the
  -- test, as many of the younger ones pass it as before.
  pub stored-prune_notifications :
      (threshold : ℕ) (p : Message → Bool) (db : Db d)
      → (stored (λ n. ltb n.time threshold && p n) (prune_notifications d threshold db) ≡ 0)
        × (stored p (prune_notifications d threshold db)
            ≡ stored (λ n. not (ltb n.time threshold) && p n) db)
  unfolding prune_notifications
  stored-prune_notifications threshold p db = (
    stored-delete_matching (λ n. ltb n.time threshold && p n) (λ n. ltb n.time threshold) db
        ∙ count-eq-zero _ (λ n. ground arith) (d.notifications.to_array db.notifications),
    stored-delete_matching p (λ n. ltb n.time threshold) db,
  )

  -- What `addNotification` does on every branch. A message that is there already, or that is a
  -- delete or clear event, changes nothing and gives false. Any other is stored by `put` as
  -- `stored_message`, its subscription's last message id is set, and the result is true.
  pub add_notification_lem :
      (session : Session) (sub : String) (m : Message) (db : Db d)
      → ((existing : Message)
          → d.notifications.get m.id db.notifications ≡ some existing
          → add_notification d session sub m db ≡ (db, false))
        × ((m.event === event_message_delete || m.event === event_message_clear) ≡ true
            → add_notification d session sub m db ≡ (db, false))
        × (d.notifications.get m.id db.notifications ≡ none
            → (m.event === event_message_delete || m.event === event_message_clear) ≡ false
            → add_notification d session sub m db ≡ (
              set_last d sub m.id (record db {
                notifications = d.notifications.put (stored_message session sub m) db.notifications;
              }),
              true,
            ))
  unfolding add_notification message_with_sequence_id
  add_notification_lem session sub m db = (
    λ existing h. ground arith,
    λ h. ground arith,
    λ fresh h.
        ground (arith, d.notifications.add_lem (stored_message session sub m) db.notifications),
  )
