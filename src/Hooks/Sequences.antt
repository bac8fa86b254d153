-- ===== src/Hooks/Sequences.antt =====
-- handleNotification: what is stored of a sequence afterwards.
use coop_messenger.Prelude.{
  String, ◌≡◌, ◌≢◌, refl, Bool, true, false, not, ◌&&◌, ◌||◌, none, some, [], ◌∷◌, arith, eq_iff,
  eq_refl, ◌===◌, truthy, if◌then◌else◌, Option-cases, inl, inr, ◌∙◌, count-eq-zero, count_congr,
}
use coop_messenger.Events.{event_message_delete, event_message_clear}
use coop_messenger.Types.{Message, Subscription, Session}
use coop_messenger.Db.{Dexie, Db}
use coop_messenger.Table.Laws.{get-delete_where, count-put_fresh}
use coop_messenger.Subscriptions.{
  sequence_of, in_sequence, is_new, mark_read, set_last, message_with_sequence_id,
}
use coop_messenger.Subscriptions.Stored.{
  stored_message, add_notification, delete_notification_by_sequence_id,
  mark_notification_read_by_sequence_id, delete_matching,
}
use coop_messenger.Subscriptions.Stored.Laws.{
  stored, stored-delete_matching, stored-mark_matching, add_notification_lem,
}
use coop_messenger.Hooks.{done, cancel, notify_added, replace_notification, handle_notification}

-- A message that is stored: neither a delete nor a clear event.
abbrev pub IsRegular : Message → Type 0
IsRegular m = (m.event === event_message_delete || m.event === event_message_clear) ≡ false

stored_message-in_sequence :
    (session : Session) (sub : String) (m : Message)
    → m.stored_sequence_id ≡ none
    → in_sequence sub (sequence_of m) (stored_message session sub m) ≡ true
unfolding stored_message message_with_sequence_id
stored_message-in_sequence session sub m w = ground (arith, eq_refl sub, eq_refl (sequence_of m))

id-stored_message :
    (session : Session) (sub : String) (m : Message) → (stored_message session sub m).id ≡ m.id
unfolding stored_message message_with_sequence_id
id-stored_message session sub m = ground arith

module _ (d : Dexie) where
  db-notify_added :
      (session : Session) (sub : String) (m : Message) (db : Db d)
      → (notify_added d session sub m db).db ≡ db
  unfolding notify_added
  db-notify_added session sub m db = ground arith

  db-replace_notification :
      (session : Session) (s : Subscription) (m : Message) (db : Db d)
      → sequence_of m ≢ ""
      → (replace_notification d session s m db).db
        ≡ (add_notification d session s.id m
            (delete_notification_by_sequence_id d s.id (sequence_of m) db)).0
  unfolding replace_notification
  db-replace_notification session s m db h =
      let r : Db d × Bool =
        add_notification d session s.id m
          (delete_notification_by_sequence_id d s.id (sequence_of m) db) in
      ground (arith, eq_iff (sequence_of m) "", db-notify_added session s.id m r.0)

  pub get-cleared :
      (sub seq : String) (k : String) (db : Db d)
      → ((old : Message)
          → d.notifications.get k db.notifications ≡ some old
          → in_sequence sub seq old ≡ true)
      → d.notifications.get k (delete_notification_by_sequence_id d sub seq db).notifications ≡ none
  unfolding delete_notification_by_sequence_id delete_matching
  get-cleared sub seq k db h =
      get-delete_where d.notifications k (in_sequence sub seq) db.notifications
      ∙ elim (Option-cases (d.notifications.get k db.notifications)) [
        | inl e ↦ rw e refl
        | inr (old, e) ↦ rw (e, h old e) refl
      ]

  -- The branch for regular messages, with the database that it leaves.
  pub db-replaced :
      (session : Session) (s : Subscription) (m : Message) (db : Db d)
      → IsRegular m
      → sequence_of m ≢ ""
      → ((old : Message)
          → d.notifications.get m.id db.notifications ≡ some old
          → in_sequence s.id (sequence_of m) old ≡ true)
      → (handle_notification d session s m db).db
        ≡ set_last d s.id m.id
            (record (delete_notification_by_sequence_id d s.id (sequence_of m) db) {
              notifications =
                  d.notifications.put
                    (stored_message session s.id m)
                    (delete_notification_by_sequence_id d s.id (sequence_of m) db).notifications;
            })
  unfolding handle_notification
  db-replaced session s m db regular nonempty own =
      let cleared = delete_notification_by_sequence_id d s.id (sequence_of m) db in
      let fresh = get-cleared s.id (sequence_of m) m.id db own in
      let added = (add_notification_lem d session s.id m cleared).2 fresh regular in
      let branch : (handle_notification d session s m db) ≡ replace_notification d session s m db =
        ground arith in
      rw (branch, db-replace_notification session s m db nonempty, added) refl

  stored-cleared_self :
      (sub seq : String) (db : Db d)
      → stored d (in_sequence sub seq) (delete_notification_by_sequence_id d sub seq db) ≡ 0
  unfolding delete_notification_by_sequence_id
  stored-cleared_self sub seq db =
      stored-delete_matching d (in_sequence sub seq) (in_sequence sub seq) db
      ∙ count-eq-zero _ (λ n. ground arith) (d.notifications.to_array db.notifications)

  stored-cleared_other :
      (sub seq : String) (p : Message → Bool) (db : Db d)
      → stored d
          (λ n. not (in_sequence sub seq n) && p n)
          (delete_notification_by_sequence_id d sub seq db)
        ≡ stored d (λ n. not (in_sequence sub seq n) && p n) db
  unfolding delete_notification_by_sequence_id
  stored-cleared_other sub seq p db =
      stored-delete_matching d (λ n. not (in_sequence sub seq n) && p n) (in_sequence sub seq) db
      ∙ count_congr _ _ (λ n. ground arith) (d.notifications.to_array db.notifications)

  pub deleted :
      (session : Session) (s : Subscription) (m : Message) (db : Db d)
      → m.event ≡ event_message_delete
      → truthy m.sequence_id ≡ true
      → handle_notification d session s m db
        ≡ done d (delete_notification_by_sequence_id d s.id (sequence_of m) db) (cancel s m ∷ [])
  unfolding handle_notification
  deleted session s m db e t = rw (e, t) refl

  pub marked :
      (session : Session) (s : Subscription) (m : Message) (db : Db d)
      → m.event ≡ event_message_clear
      → truthy m.sequence_id ≡ true
      → handle_notification d session s m db
        ≡ done d (mark_notification_read_by_sequence_id d s.id (sequence_of m) db) (cancel s m ∷ [])
  unfolding handle_notification
  marked session s m db e t = rw (e, t) refl

  pub stored-marked_new :
      (sub seq : String) (db : Db d)
      → stored d
          (λ n. in_sequence sub seq n && is_new n)
          (mark_notification_read_by_sequence_id d sub seq db)
        ≡ 0
  unfolding mark_notification_read_by_sequence_id
  stored-marked_new sub seq db =
      stored-mark_matching d (λ n. in_sequence sub seq n && is_new n) (in_sequence sub seq) db
      ∙ count-eq-zero _ (λ n. ground arith) (d.notifications.to_array db.notifications)

  stored-marked :
      (sub seq : String) (q : Message → Bool) (db : Db d)
      → ((n : Message) → q (if in_sequence sub seq n then mark_read n else n) ≡ q n)
      → stored d q (mark_notification_read_by_sequence_id d sub seq db) ≡ stored d q db
  unfolding mark_notification_read_by_sequence_id
  stored-marked sub seq q db h =
      stored-mark_matching d q (in_sequence sub seq) db
      ∙ count_congr _ _ h (d.notifications.to_array db.notifications)

  -- A regular message, as the server sends it and of a sequence with a nonempty id, replaces what is
  -- stored of its sequence: if its own id is not stored for another sequence, then exactly one
  -- notification of the sequence is stored afterwards, it is this message, and whatever else is
  -- stored stays, as counted by any test.
  pub handle_notification-replaces :
      (session : Session) (s : Subscription) (m : Message) (db : Db d) (p : Message → Bool)
      → IsRegular m
      → m.stored_sequence_id ≡ none
      → sequence_of m ≢ ""
      → ((old : Message)
          → d.notifications.get m.id db.notifications ≡ some old
          → in_sequence s.id (sequence_of m) old ≡ true)
      → (stored d (in_sequence s.id (sequence_of m)) (handle_notification d session s m db).db ≡ 1)
        × (d.notifications.get m.id (handle_notification d session s m db).db.notifications
            ≡ some (stored_message session s.id m))
        × (stored d
              (λ n. not (in_sequence s.id (sequence_of m) n) && p n)
              (handle_notification d session s m db).db
            ≡ stored d (λ n. not (in_sequence s.id (sequence_of m) n) && p n) db)
  unfolding set_last
  handle_notification-replaces session s m db p regular wire nonempty own =
      let seq = sequence_of m in
      let row = stored_message session s.id m in
      let cleared = delete_notification_by_sequence_id d s.id seq db in
      let fresh : d.notifications.get row.id cleared.notifications ≡ none =
        rw (id-stored_message session s.id m) (get-cleared s.id seq m.id db own) in
      let mine = stored_message-in_sequence session s.id m wire in
      let counted =
        λ (q : Message → Bool). count-put_fresh d.notifications q row cleared.notifications fresh in
      rw (db-replaced session s m db regular nonempty own) (
        counted (in_sequence s.id seq) ∙ rw (mine, stored-cleared_self s.id seq db) refl,
        d.notifications.get-put m.id row cleared.notifications
            ∙ rw (id-stored_message session s.id m, eq_refl m.id) refl,
        counted (λ n. not (in_sequence s.id seq n) && p n)
            ∙ rw (mine, stored-cleared_other s.id seq p db) (omega arith),
      )

  -- A delete event for a sequence leaves nothing of it stored; the rest stays as it is, as counted
  -- by any test, and the displayed notification is cancelled.
  handle_notification-deletes :
      (session : Session) (s : Subscription) (m : Message) (db : Db d) (p : Message → Bool)
      → m.event ≡ event_message_delete
      → truthy m.sequence_id ≡ true
      → (stored d (in_sequence s.id (sequence_of m)) (handle_notification d session s m db).db ≡ 0)
        × (stored d
              (λ n. not (in_sequence s.id (sequence_of m) n) && p n)
              (handle_notification d session s m db).db
            ≡ stored d (λ n. not (in_sequence s.id (sequence_of m) n) && p n) db)
        × ((handle_notification d session s m db).effects ≡ cancel s m ∷ [])
  handle_notification-deletes session s m db p e t = rw (deleted session s m db e t) (
    stored-cleared_self s.id (sequence_of m) db,
    stored-cleared_other s.id (sequence_of m) p db,
    refl,
  )

  -- A clear event for a sequence leaves nothing of it unread and removes nothing of it; the rest
  -- stays as it is, as counted by any test, and the displayed notification is cancelled.
  handle_notification-clears :
      (session : Session) (s : Subscription) (m : Message) (db : Db d) (p : Message → Bool)
      → m.event ≡ event_message_clear
      → truthy m.sequence_id ≡ true
      → (stored d
            (λ n. in_sequence s.id (sequence_of m) n && is_new n)
            (handle_notification d session s m db).db
          ≡ 0)
        × (stored d (in_sequence s.id (sequence_of m)) (handle_notification d session s m db).db
            ≡ stored d (in_sequence s.id (sequence_of m)) db)
        × (stored d
              (λ n. not (in_sequence s.id (sequence_of m) n) && p n)
              (handle_notification d session s m db).db
            ≡ stored d (λ n. not (in_sequence s.id (sequence_of m) n) && p n) db)
        × ((handle_notification d session s m db).effects ≡ cancel s m ∷ [])
  handle_notification-clears session s m db p e t = rw (marked session s m db e t) (
    stored-marked_new s.id (sequence_of m) db,
    stored-marked s.id (sequence_of m) (in_sequence s.id (sequence_of m)) db (λ n. ground arith),
    stored-marked s.id (sequence_of m) (λ n. not (in_sequence s.id (sequence_of m) n) && p n) db
        (λ n. ground arith),
    refl,
  )
