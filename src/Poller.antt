-- ===== src/Poller.antt =====
-- web/src/app/Poller.js: fetching what was missed. The response of the server, the list that
-- `api.poll` gives, is an argument.
pub mod Latest
pub mod Entries
pub mod Poll
use coop_messenger.Prelude.{
  ℕ, ◌+◌, ◌-◌, ◌/◌, String, Bool, true, false, not, Option, none, some, List, [], ◌∷◌, map, foldl,
  filter, length, ◌===◌, ltb, leb, if◌then◌else◌,
}
use coop_messenger.JsObject.{lookup, assign, in_object}
use coop_messenger.Events.{event_message, event_message_delete}
use coop_messenger.Types.{Message, Subscription}
use coop_messenger.Db.{Dexie, Db}
use coop_messenger.Errors.{Result, ok, raise}
use coop_messenger.Prefs.{delete_after}
use coop_messenger.Subscriptions.{sequence_of}
use coop_messenger.Subscriptions.Stored.{delete_notification_by_sequence_id, add_notifications}

-- `Math.round(Date.now() / 1000)`, from milliseconds.
abbrev pub round_seconds : ℕ → ℕ
round_seconds millis = (millis + 500) / 1000

-- One round of `latestNotificationsBySequenceId`. Under a key that is only inherited the old value
-- is no notification: its `time` is undefined and the comparison fails.
unfoldable pub keep_latest : List (String × Message) → Message → List (String × Message)
keep_latest latest m =
    if not (in_object (sequence_of m) latest)
    then assign (sequence_of m) m latest
    else elim (lookup (sequence_of m) latest) [
      | none ↦ latest
      | some old ↦ if leb old.time m.time then assign (sequence_of m) m latest else latest
    ]

unfoldable pub latest_notifications_by_sequence_id : List Message → List (String × Message)
unfolding keep_latest
latest_notifications_by_sequence_id = foldl keep_latest []

-- The threshold in seconds below which notifications are ignored, 0 for none. With a threshold
-- before the epoch, where the difference would be negative, nothing is ignored either.
unfoldable pub prune_threshold : Option ℕ → ℕ → ℕ
prune_threshold none now_millis = 0
prune_threshold (some after) now_millis =
    if ltb 0 after then round_seconds now_millis - after else 0

unfoldable pub recent_notifications : ℕ → List Message → List Message
recent_notifications threshold ms =
    if ltb 0 threshold then filter (λ m. leb threshold m.time) ms else ms

unfoldable pub deleted_sequence_ids : List (String × Message) → List String
deleted_sequence_ids latest =
    map (λ e. e.0) (filter (λ e. e.1.event === event_message_delete) latest)

unfoldable pub notifications_to_add : List (String × Message) → List Message
notifications_to_add latest = filter (λ m. m.event === event_message) (map (λ e. e.1) latest)

module _ (d : Dexie) where
  unfoldable pub delete_sequences : String → List String → Db d → Db d
  delete_sequences id [] db = db
  delete_sequences id (seq ∷ seqs) db =
      delete_sequences id seqs (delete_notification_by_sequence_id d id seq db)

  unfoldable pub store_latest : String → List (String × Message) → Db d → Result (Db d)
  unfolding deleted_sequence_ids notifications_to_add delete_sequences
  store_latest id latest db =
      let deleted = delete_sequences id (deleted_sequence_ids latest) db in
      if ltb 0 (length (notifications_to_add latest))
      then add_notifications d id (notifications_to_add latest) deleted
      else ok deleted

  -- The time is in milliseconds.
  unfoldable pub poll : Subscription → List Message → ℕ → Db d → Result (Db d)
  unfolding prune_threshold recent_notifications latest_notifications_by_sequence_id store_latest
  poll s fetched now_millis db =
      store_latest s.id
        (latest_notifications_by_sequence_id
          (recent_notifications (prune_threshold (delete_after d db) now_millis) fetched))
        db
