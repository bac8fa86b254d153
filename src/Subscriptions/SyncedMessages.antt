-- ===== src/Subscriptions/SyncedMessages.antt =====
-- syncFromRemote: what becomes of the stored notifications.
use coop_messenger.Prelude.{
  String, ◌≡◌, refl, Bool, false, not, ◌&&◌, ◌||◌, Option, some, List, [], ◌∷◌, map, any, arith,
  eq_iff, ◌===◌, if◌then◌else◌, ◌∙◌, includes, Bool-cases, inl, inr, count-filter, count-eq-zero,
  count_congr, some_eq_ne,
}
use coop_messenger.Types.{Message, Subscription, Reservation, Config}
use coop_messenger.Db.{Dexie, Db}
use coop_messenger.Table.Laws.{any-to_array}
use coop_messenger.Subscriptions.{
  in_subscription, Opts, RemoteSubscription, get, add, remove, add_remotes, remove_missing,
  sync_from_remote,
}
use coop_messenger.Subscriptions.Sync.{
  remote_id, is_gone, ids-add_remotes, add_remotes-Added, id-get,
}
use coop_messenger.Subscriptions.Stored.Laws.{stored}

not-in_subscription-and :
    (j id : String) (p : Message → Bool) (n : Message)
    → (j === id) ≡ false
    → (not (in_subscription j n) && (in_subscription id n && p n)) ≡ (in_subscription id n && p n)
not-in_subscription-and j id p n other =
    ground (arith, some_eq_ne n.subscription_id j id (λ e. ground (arith, eq_iff j id)))

module _ (d : Dexie) (id : String) (p : Message → Bool) where
  pub stored-remove :
      (j : String) (db : Db d)
      → stored d (λ n. in_subscription id n && p n) (remove d j db)
        ≡ (if j === id then 0 else stored d (λ n. in_subscription id n && p n) db)
  unfolding remove
  stored-remove j db =
      let rows = d.notifications.to_array db.notifications in
      rw (d.notifications.to_array-delete_where (in_subscription j) db.notifications) (
        count-filter (λ n. in_subscription id n && p n) (λ n. not (in_subscription j n)) rows
        ∙ elim (Bool-cases (j === id)) [
          | inl same ↦
              let e : j ≡ id = (eq_iff j id).0 same in
              rw (same, e) (count-eq-zero _ (λ n. ground arith) rows)
          | inr other ↦
              rw other (count_congr _ _ (λ n. not-in_subscription-and j id p n other) rows)
        ])

  stored-remove_missing :
      (ids : List String) (locals : List Subscription) (db : Db d)
      → stored d (λ n. in_subscription id n && p n) (remove_missing d ids locals db) ≡ (
          if any (λ l. l.id === id && is_gone ids l) locals
          then 0
          else stored d (λ n. in_subscription id n && p n) db)
  unfolding remove_missing
  stored-remove_missing ids [] db = refl
  stored-remove_missing ids (l ∷ ls) db = ground (
    arith,
    stored-remove_missing ids ls db,
    stored-remove_missing ids ls (remove d l.id db),
    stored-remove l.id db,
  )

module _ (d : Dexie) where
  notifications-add :
      (base_url topic : String) (opts : Opts) (db : Db d)
      → (add d base_url topic opts db).0.notifications ≡ db.notifications
  unfolding add
  notifications-add base_url topic opts db = ground arith

  notifications-add_remotes :
      (config : Config) (reservations : Option (List Reservation))
      (remotes : List RemoteSubscription) (db : Db d)
      → (add_remotes d config reservations remotes db).0.notifications ≡ db.notifications
  unfolding add_remotes
  notifications-add_remotes config reservations [] db = refl
  notifications-add_remotes config reservations (r ∷ rs) db =
      notifications-add_remotes config reservations rs _ ∙ notifications-add r.base_url r.topic _ db

  -- A sync keeps the stored notifications of a subscription that it keeps, and deletes all those of
  -- one that it removes.
  pub stored-sync_from_remote :
      (config : Config) (remotes : List RemoteSubscription)
      (reservations : Option (List Reservation)) (db : Db d) (id : String) (s : Subscription)
      (p : Message → Bool)
      → get d id db ≡ some s
      → stored d
          (λ n. in_subscription id n && p n)
          (sync_from_remote d config remotes reservations db)
        ≡ (if s.internal || includes id (map remote_id remotes)
            then stored d (λ n. in_subscription id n && p n) db
            else 0)
  unfolding sync_from_remote get
  stored-sync_from_remote config remotes reservations db id s p h =
      let mid = (add_remotes d config reservations remotes db).0 in
      let kept : get d id mid ≡ some s =
        rw h at (add_remotes-Added d config reservations remotes db id) in
      let same : s.id ≡ id = id-get d id mid s kept in
      rw
        (
          ids-add_remotes d config reservations remotes db,
          stored-remove_missing d id p (map remote_id remotes)
              (d.subscriptions.to_array mid.subscriptions) mid,
          any-to_array d.subscriptions (is_gone (map remote_id remotes)) id mid.subscriptions,
          kept,
          same,
          notifications-add_remotes config reservations remotes db,
        )
        (ground arith)
