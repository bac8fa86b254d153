-- ===== src/Poller/Poll.antt =====
-- poll: what is stored afterwards of a sequence whose newest notification is a delete event.
use coop_messenger.Prefs.{delete_after}
use coop_messenger.Errors.{ok}
use mathlib.Core.List.{foldl}
use coop_messenger.Prelude.{
  String, ◌≡◌, refl, Bool, true, false, not, ◌&&◌, Option, none, some, List, [], ◌∷◌, arith, eq_iff,
  any, map, count, ◌===◌, Bool-cases, inl, inr, ◌∙◌, count-eq-zero, ℕ, length, ltb, Option-cases,
  if◌then◌else◌,
}
use coop_messenger.JsObject.{lookup}
use coop_messenger.Events.{event_message_delete}
use coop_messenger.Types.{Message, Subscription}
use coop_messenger.Db.{Dexie, Db}
use coop_messenger.Subscriptions.{sequence_of, in_sequence, message_with_sequence_id, set_last}
use coop_messenger.Subscriptions.Stored.{
  delete_notification_by_sequence_id, last_id, add_notifications,
}
use coop_messenger.Subscriptions.Stored.Laws.{stored, stored-delete_matching}
use coop_messenger.Poller.{
  latest_notifications_by_sequence_id, deleted_sequence_ids, notifications_to_add, delete_sequences,
  prune_threshold, recent_notifications, poll,
}
use coop_messenger.Poller.Entries.{
  AllWire, latest-IsKeyed, AllWire-recent, AllWire-notifications_to_add, any-deleted_sequence_ids,
  any-notifications_to_add,
}

count-and-zero :
    (p q : Message → Bool) (l : List Message) → count p l ≡ 0 → count (λ n. q n && p n) l ≡ 0
count-and-zero p q [] h = refl
count-and-zero p q (n ∷ l) h = ground (arith, count-and-zero p q l)

-- The rows that `addNotifications` puts.
abbrev row_of : String → Message → Message
row_of id m = record (message_with_sequence_id m) { subscription_id = some id }

any-row_of :
    (id k : String) (ms : List Message)
    → AllWire ms
    → any (λ n. sequence_of n === k) ms ≡ false
    → any (in_sequence id k) (map (row_of id) ms) ≡ false
unfolding message_with_sequence_id
any-row_of id k [] w h = refl
any-row_of id k (m ∷ ms) w h = ground (arith, any-row_of id k ms w.1)

abbrev pub deletes : Option Message → Bool
deletes none = false
deletes (some m) = m.event === event_message_delete

last_id_ok : (ms : List Message) → ltb 0 (length ms) ≡ true → (id : String) × (last_id ms ≡ ok id)
unfolding last_id
last_id_ok [] h = ground arith
last_id_ok (m ∷ []) h = (m.id, refl)
last_id_ok (m ∷ m' ∷ ms) h = last_id_ok (m' ∷ ms) (ground arith)

module _ (d : Dexie) where
  -- A deletion does not bring anything back.
  stored-delete_sequences_zero :
      (p : Message → Bool) (id : String) (seqs : List String) (db : Db d)
      → stored d p db ≡ 0
      → stored d p (delete_sequences d id seqs db) ≡ 0
  unfolding delete_sequences delete_notification_by_sequence_id
  stored-delete_sequences_zero p id [] db h = h
  stored-delete_sequences_zero p id (s ∷ seqs) db h =
      stored-delete_sequences_zero p id seqs (delete_notification_by_sequence_id d id s db) (
        stored-delete_matching d p (in_sequence id s) db
        ∙ count-and-zero p (λ n. not (in_sequence id s n))
            (d.notifications.to_array db.notifications) h)

  stored-delete_sequences :
      (id k : String) (seqs : List String) (db : Db d)
      → any (λ s. s === k) seqs ≡ true
      → stored d (in_sequence id k) (delete_sequences d id seqs db) ≡ 0
  unfolding delete_sequences delete_notification_by_sequence_id
  stored-delete_sequences id k [] db h = ground arith
  stored-delete_sequences id k (s ∷ seqs) db h = elim (Bool-cases (s === k)) [
    | inl same ↦
        let e : s ≡ k = (eq_iff s k).0 same in
        stored-delete_sequences_zero (in_sequence id k) id seqs _ (
          rw e (
            stored-delete_matching d (in_sequence id k) (in_sequence id k) db
            ∙ count-eq-zero _ (λ n. ground arith) (d.notifications.to_array db.notifications)))
    | inr other ↦ stored-delete_sequences id k seqs _ (ground arith)
  ]

  -- Rows that fail a test do not make the count of it larger.
  count-foldl_put :
      (p : Message → Bool) (rows : List Message) (t : d.notifications.Rows)
      → any p rows ≡ false
      → count p (d.notifications.to_array t) ≡ 0
      → count p (d.notifications.to_array (foldl (λ u r. d.notifications.put r u) t rows)) ≡ 0
  count-foldl_put p [] t h z = z
  count-foldl_put p (r ∷ rows) t h z =
      count-foldl_put p rows (d.notifications.put r t) (ground arith) (
        ground (
          arith,
          d.notifications.count-put p r t,
          count-and-zero p (λ x. not (x.id === r.id)) (d.notifications.to_array t),
        ))

  add_notifications_ok :
      (id : String) (p : Message → Bool) (ms : List Message) (db : Db d)
      → any p (map (row_of id) ms) ≡ false
      → stored d p db ≡ 0
      → ltb 0 (length ms) ≡ true
      → (db' : Db d) × (add_notifications d id ms db ≡ ok db') × (stored d p db' ≡ 0)
  unfolding add_notifications set_last
  add_notifications_ok id p ms db h z n =
      let (last, e) = last_id_ok ms n in
      (
        set_last d id last (record db {
          notifications = d.notifications.bulk_put (map (row_of id) ms) db.notifications;
        }),
        rw (e, add_notifications) refl,
        rw (d.notifications.bulk_put_lem (map (row_of id) ms) db.notifications)
            (count-foldl_put p (map (row_of id) ms) db.notifications h z),
      )

  poll_deletes :
      (s : Subscription) (fetched : List Message) (now : ℕ) (db : Db d) (k : String) (m : Message)
      → AllWire fetched
      → lookup k (
          latest_notifications_by_sequence_id
            (recent_notifications (prune_threshold (delete_after d db) now) fetched))
        ≡ some m
      → m.event ≡ event_message_delete
      → (db' : Db d) × (poll d s fetched now db ≡ ok db') × (stored d (in_sequence s.id k) db' ≡ 0)
  unfolding poll
  poll_deletes s fetched now db k m wire found e =
      let recent = recent_notifications (prune_threshold (delete_after d db) now) fetched in
      let latest = latest_notifications_by_sequence_id recent in
      let keyed = latest-IsKeyed recent (AllWire-recent _ fetched wire) in
      let deleted = delete_sequences d s.id (deleted_sequence_ids latest) db in
      let z : stored d (in_sequence s.id k) deleted ≡ 0 =
        stored-delete_sequences s.id k (deleted_sequence_ids latest) db
          (any-deleted_sequence_ids k m latest found e) in
      elim (Bool-cases (ltb 0 (length (notifications_to_add latest)))) [
        | inl more ↦ rw more (
            add_notifications_ok s.id (in_sequence s.id k) (notifications_to_add latest) deleted
              (any-row_of s.id k _ (AllWire-notifications_to_add latest keyed)
                (any-notifications_to_add k m latest found e keyed))
              z more)
        | inr nothing ↦ rw nothing (deleted, refl, z)
      ]

  stored-none : (db : Db d) → stored d (λ n. false) db ≡ 0
  stored-none db = count-eq-zero _ (λ n. refl) (d.notifications.to_array db.notifications)

  any-none : {A : Type 0} (xs : List A) → any (λ x. false) xs ≡ false
  any-none [] = refl
  any-none (x ∷ xs) = any-none xs

  poll_returns :
      (s : Subscription) (fetched : List Message) (now : ℕ) (db : Db d)
      → (db' : Db d) × (poll d s fetched now db ≡ ok db')
  unfolding poll
  poll_returns s fetched now db =
      let latest =
        latest_notifications_by_sequence_id
          (recent_notifications (prune_threshold (delete_after d db) now) fetched) in
      let deleted = delete_sequences d s.id (deleted_sequence_ids latest) db in
      elim (Bool-cases (ltb 0 (length (notifications_to_add latest)))) [
        | inl more ↦
            let (db', returns, none_stored) =
              add_notifications_ok s.id (λ n. false) (notifications_to_add latest) deleted
                (any-none (map (row_of s.id) (notifications_to_add latest))) (stored-none deleted)
                more in
            rw more (db', returns)
        | inr nothing ↦ rw nothing (deleted, refl)
      ]

  -- A poll of messages as the server sends them never throws, whatever they are. Of the messages that
  -- are not older than the threshold of pruning, the newest one is kept for each sequence, but for names
  -- that every object inherits; if it is a delete event, nothing of the sequence is stored for the
  -- subscription afterwards.
  pub poll-deleted :
      (s : Subscription) (fetched : List Message) (now : ℕ) (db : Db d) (k : String)
      → AllWire fetched
      → (db' : Db d) × (poll d s fetched now db ≡ ok db')
        × ((if deletes (
                lookup k (
                  latest_notifications_by_sequence_id
                    (recent_notifications (prune_threshold (delete_after d db) now) fetched)))
              then stored d (in_sequence s.id k) db'
              else 0)
            ≡ 0)
  poll-deleted s fetched now db k wire =
      let newest = lookup k (
        latest_notifications_by_sequence_id
          (recent_notifications (prune_threshold (delete_after d db) now) fetched)) in
      let (db', returns) = poll_returns s fetched now db in
      elim (Option-cases newest) [
        | inl missing ↦ (db', returns, rw missing refl)
        | inr (m, found) ↦ elim (Bool-cases (m.event === event_message_delete)) [
          | inl deletion ↦
              let (db'', returns', z) =
                poll_deletes s fetched now db k m wire found
                  ((eq_iff m.event event_message_delete).0 deletion) in
              (db'', returns', rw (found, deletion) z)
          | inr other ↦ (db', returns, rw (found, other) refl)
        ]
      ]
