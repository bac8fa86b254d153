-- ===== src/Joining/Leaving.antt =====
-- What leaving a chat leaves behind, and what a sync with the account makes of it.
use coop_messenger.Prelude.{
  ◌≡◌, refl, ◌∙◌, String, Bool, true, not, ◌&&◌, Option, none, some, List, map, includes, ◌===◌,
  if◌then◌else◌, arith, eq_refl, Bool-cases, inl, inr,
}
use coop_messenger.Types.{Config, Subscription, Message, Reservation}
use coop_messenger.Db.{Dexie, Db}
use coop_messenger.Table.Laws.{get-delete}
use coop_messenger.Errors.{AppError, unauthorized}
use coop_messenger.Users.{exists}
use coop_messenger.Subscriptions.{
  in_subscription, RemoteSubscription, get, remove, sync_from_remote,
}
use coop_messenger.Subscriptions.Stored.Laws.{stored}
use coop_messenger.Subscriptions.Sync.{remote_id, IsFresh, Synced, sync_from_remote-Synced}
use coop_messenger.Subscriptions.SyncedMessages.{stored-remove}
use coop_messenger.Account.{Request}
use coop_messenger.Account.Requests.{delete_subscription}
use coop_messenger.Joining.{request, Client, perform, settle, handle_unsubscribe}

module _ (d : Dexie) (config : Config) (answer : Request → Option AppError) where
  db-settle : (o : Option AppError) (c : Client d) → (settle d o c).db ≡ c.db
  db-settle none c = refl
  db-settle (some unauthorized) c = refl
  db-settle (some e) c = refl

  -- Whatever the account answers, only the subscription is removed here.
  db-handle_unsubscribe :
      (s : Subscription) (c : Client d)
      → (handle_unsubscribe d config answer s c).db ≡ remove d s.id c.db
  unfolding handle_unsubscribe
  db-handle_unsubscribe s c = elim (Bool-cases (exists c.session && not s.internal)) [
    | inl told ↦ rw told (
        db-settle (answer (delete_subscription config c.session s.base_url s.topic)) (
          perform d (request (delete_subscription config c.session s.base_url s.topic))
            (record c { db = remove d s.id c.db })))
    | inr silent ↦ rw silent refl
  ]

  get-remove :
      (id j : String) (db : Db d)
      → get d id (remove d j db) ≡ (if j === id then none else get d id db)
  unfolding get remove
  get-remove id j db = get-delete d.subscriptions id j db.subscriptions

  -- After a chat was left it is not there and none of its messages is stored, whatever the account
  -- answers; every other chat is as it was, and as many of its messages pass any test.
  handle_unsubscribe-removes :
      (s : Subscription) (c : Client d) (id : String) (p : Message → Bool)
      → let after = (handle_unsubscribe d config answer s c).db in
        (get d id after ≡ (if s.id === id then none else get d id c.db))
        × (stored d (λ n. in_subscription id n && p n) after
            ≡ (if s.id === id then 0 else stored d (λ n. in_subscription id n && p n) c.db))
  handle_unsubscribe-removes s c id p =
      rw (db-handle_unsubscribe s c) (get-remove id s.id c.db, stored-remove d id p s.id c.db)

  came_back :
      (ids : List String) (id : String) (before after : Option Subscription)
      → before ≡ none
      → includes id ids ≡ true
      → Synced ids id before after
      → (s : Subscription) × (after ≡ some s) × IsFresh id s
  came_back ids id (some b) after e h y = absurd (ground (arith, e))
  came_back ids id none none e h y = absurd (ground (arith, h, y))
  came_back ids id none (some s) e h (listed, fresh) = (s, refl, fresh)

  -- A chat that was left, and that the account still lists, as it does where the request failed, is
  -- there again after the next sync: not muted, with nothing received.
  pub handle_unsubscribe_undone :
      (s : Subscription) (c : Client d) (remotes : List RemoteSubscription)
      (reservations : Option (List Reservation))
      → includes s.id (map remote_id remotes) ≡ true
      → (t : Subscription) × (get d s.id (
            sync_from_remote d config remotes reservations
              (handle_unsubscribe d config answer s c).db)
          ≡ some t)
        × IsFresh s.id t
  handle_unsubscribe_undone s c remotes reservations h =
      let left = (handle_unsubscribe d config answer s c).db in
      came_back (map remote_id remotes) s.id (get d s.id left)
        (get d s.id (sync_from_remote d config remotes reservations left))
        ((handle_unsubscribe-removes s c s.id (λ n. true)).0 ∙ rw (eq_refl s.id) refl) h
        (sync_from_remote-Synced d config remotes reservations left s.id)
