-- ===== src/Subscriptions.antt =====
-- web/src/app/SubscriptionManager.js: the subscriptions and the stored notifications.
-- Every method takes the database and returns it changed; `notify` says what is shown.
pub mod Stored
pub mod Reads
pub mod Sync
pub mod SyncedMessages
use coop_messenger.Prelude.{
  ℕ, String, Bool, true, false, not, ◌&&◌, ◌||◌, Option, none, some, List, [], ◌∷◌, map, filter,
  find, any, count, ◌===◌, truthy, or_else, some_eq, eqb, ltb, if◌then◌else◌,
}
use coop_messenger.Events.{event_message, event_message_delete, event_message_clear}
use coop_messenger.Types.{Message, Subscription, Reservation, Config, Session}
use coop_messenger.Db.{Dexie, Db}
use coop_messenger.Utils.Urls.{topic_url}
use coop_messenger.Errors.{Result, ok, raise, type_error}
use coop_messenger.Prefs.{min_priority}

-- `message.sequence_id || message.id`
abbrev pub sequence_of : Message → String
sequence_of m = or_else m.sequence_id m.id

-- notificationUtils.js: messageWithSequenceId
unfoldable pub message_with_sequence_id : Message → Message
message_with_sequence_id m =
    if truthy m.stored_sequence_id
    then m
    else record m { stored_sequence_id = some (sequence_of m) }

-- `where({ subscriptionId, sequenceId })`
abbrev pub in_sequence : String → String → Message → Bool
in_sequence sub seq n = some_eq n.subscription_id sub && some_eq n.stored_sequence_id seq

abbrev pub in_subscription : String → Message → Bool
in_subscription sub n = some_eq n.subscription_id sub

abbrev pub is_new : Message → Bool
is_new n = elim n.new [ none ↦ false | some k ↦ eqb k 1 ]

abbrev pub mark_read : Message → Message
mark_read n = record n { new = some 0 }

-- A message whose sender is the user of the session.
abbrev pub is_own_message : Session → Message → Bool
is_own_message session m = elim session.username [
  | none ↦ false
  | some user ↦ truthy (some user) && (truthy m.sender && some_eq m.sender user)
]

-- What `notify` does: nothing, or a call of the notifier.
pub data Shown : Type 0 where
  skipped : Shown
  shown : Subscription → Message → Shown

-- The properties that a caller of `add` may give.
pub record Opts : Type 0 where
  pub internal : Bool
  pub display_name : Option String
  pub reservation : Option Reservation

pub record RemoteSubscription : Type 0 where
  pub base_url : String
  pub topic : String
  pub display_name : Option String

-- `priority < minPriority` is false where `minPriority` is NaN.
below_priority : ℕ → Option ℕ → Bool
below_priority priority none = false
below_priority priority (some least) = ltb priority least

unfoldable pub new_subscription : String → String → Opts → Subscription
new_subscription base_url topic opts = record {
  id = topic_url base_url topic;
  base_url = base_url;
  topic = topic;
  muted_until = 0;
  last = none;
  internal = opts.internal;
  display_name = opts.display_name;
  reservation = opts.reservation;
  state = none;
}

reservation_of : Config → Option (List Reservation) → RemoteSubscription → Option Reservation
reservation_of config none remote = none
reservation_of config (some rs) remote =
    find (λ r. remote.base_url === config.base_url && (remote.topic === r.topic)) rs

module _ (d : Dexie) where
  unfoldable pub get : String → Db d → Option Subscription
  get id db = d.subscriptions.get id db.subscriptions

  -- All subscriptions, each with the number of its new notifications.
  unfoldable pub all : Db d → List (Subscription × ℕ)
  all db =
      map
        (λ s. (
          s,
          count (λ n. in_subscription s.id n && is_new n)
              (d.notifications.to_array db.notifications),
        ))
        (d.subscriptions.to_array db.subscriptions)

  unfoldable pub notify : Session → String → Message → Db d → Result Shown
  unfolding below_priority get
  notify session subscription_id m db =
      if not (m.event === event_message)
      then ok skipped
      else if is_own_message session m
      then ok skipped
      else elim (get subscription_id db) [
        | none ↦ raise type_error
        | some s ↦
            if ltb 0 s.muted_until
            then ok skipped
            else if below_priority (elim m.priority [ none ↦ 3 | some p ↦ p ]) (min_priority d db)
            then ok skipped
            else ok (shown s m)
      ]

  -- An existing subscription is returned as it is.
  unfoldable pub add : String → String → Opts → Db d → Db d × Subscription
  unfolding new_subscription get
  add base_url topic opts db = elim (get (topic_url base_url topic) db) [
    | some existing ↦ (db, existing)
    | none ↦
        let s = new_subscription base_url topic opts in
        (record db { subscriptions = d.subscriptions.put s db.subscriptions }, s)
  ]

  -- The notifications of a subscription go with it.
  unfoldable pub remove : String → Db d → Db d
  remove id db = record db {
    subscriptions = d.subscriptions.delete id db.subscriptions;
    notifications = d.notifications.delete_where (in_subscription id) db.notifications;
  }

  -- The first loop of `syncFromRemote`; also the ids of the remote subscriptions.
  unfoldable pub add_remotes :
      Config → Option (List Reservation) → List RemoteSubscription → Db d → Db d × List String
  unfolding reservation_of add
  add_remotes config reservations [] db = (db, [])
  add_remotes config reservations (remote ∷ remotes) db =
      let opts : Opts = record {
        internal = false;
        display_name = remote.display_name;
        reservation = reservation_of config reservations remote;
      } in
      let (db', local) = add remote.base_url remote.topic opts db in
      let (db'', ids) = add_remotes config reservations remotes db' in (db'', local.id ∷ ids)

  -- The second loop, over the subscriptions that are there after the first.
  unfoldable pub remove_missing : List String → List Subscription → Db d → Db d
  unfolding remove
  remove_missing remote_ids [] db = db
  remove_missing remote_ids (local ∷ locals) db = remove_missing remote_ids locals (
      if not local.internal && not (any (λ id. id === local.id) remote_ids)
      then remove local.id db
      else db)

  unfoldable pub sync_from_remote :
      Config → List RemoteSubscription → Option (List Reservation) → Db d → Db d
  unfolding add_remotes remove_missing
  sync_from_remote config remotes reservations db =
      let (db', ids) = add_remotes config reservations remotes db in
      remove_missing ids (d.subscriptions.to_array db'.subscriptions) db'

  -- `this.db.subscriptions.update(id, …)`
  unfoldable pub update : String → (Subscription → Subscription) → Db d → Db d
  update id f db = record db { subscriptions = d.subscriptions.update id f db.subscriptions }

  unfoldable pub update_state : String → String → Db d → Db d
  unfolding update
  update_state id state = update id (λ s. record s { state = some state })

  unfoldable pub set_muted_until : String → ℕ → Db d → Db d
  unfolding update
  set_muted_until id t = update id (λ s. record s { muted_until = t })

  unfoldable pub set_display_name : String → Option String → Db d → Db d
  unfolding update
  set_display_name id name = update id (λ s. record s { display_name = name })

  unfoldable pub set_reservation : String → Option Reservation → Db d → Db d
  unfolding update
  set_reservation id r = update id (λ s. record s { reservation = r })

  unfoldable pub set_last : String → String → Db d → Db d
  unfolding update
  set_last id last = update id (λ s. record s { last = some last })
