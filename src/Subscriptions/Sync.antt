-- ===== src/Subscriptions/Sync.antt =====
-- syncFromRemote: which subscriptions are there afterwards, and as what.
use coop_messenger.Prelude.{
  String, ◌≡◌, refl, ap₂, Bool, true, false, not, ◌&&◌, ◌||◌, Option, none, some, List, [], ◌∷◌,
  map, any, arith, eq_iff, ◌===◌, if◌then◌else◌, includes, Bool-cases, inl, inr, Option-cases,
}
use coop_messenger.Types.{Subscription, Reservation, Config}
use coop_messenger.Db.{Dexie, Db}
use coop_messenger.Table.Laws.{get-key, get-delete, any-to_array}
use coop_messenger.Utils.Urls.{topic_url}
use coop_messenger.Subscriptions.{
  Opts, RemoteSubscription, get, add, new_subscription, remove, add_remotes, remove_missing,
  sync_from_remote,
}

-- The id of the local subscription to a remote one.
abbrev pub remote_id : RemoteSubscription → String
remote_id r = topic_url r.base_url r.topic

-- A new subscription: not muted, with nothing received, not internal.
abbrev pub IsFresh : String → Subscription → Type 0
IsFresh id s = (s.id ≡ id) × (s.muted_until ≡ 0) × (s.last ≡ none) × (s.internal ≡ false)

-- The remote subscriptions are there after the first loop, and the old ones are as they were.
abbrev pub Added : List String → String → Option Subscription → Option Subscription → Type 0
Added ids id (some s) after = after ≡ some s
Added ids id none none = includes id ids ≡ false
Added ids id none (some s) = (includes id ids ≡ true) × IsFresh id s

-- What `syncFromRemote` makes of the subscription `id`, given what it was before.
abbrev pub Synced : List String → String → Option Subscription → Option Subscription → Type 0
Synced ids id (some s) after = after ≡ (if s.internal || includes id ids then some s else none)
Synced ids id none none = includes id ids ≡ false
Synced ids id none (some s) = (includes id ids ≡ true) × IsFresh id s

Added-skip :
    (ids : List String) (t id : String) (after : Option Subscription)
    → (t === id) ≡ false
    → Added ids id none after
    → Added (t ∷ ids) id none after
Added-skip ids t id none e h = ground arith
Added-skip ids t id (some s) e (h, fresh) = (ground arith, fresh)

pub Added-nil : (id : String) (o : Option Subscription) → Added [] id o o
Added-nil id none = refl
Added-nil id (some s) = refl

pub Added-cons :
    (ids : List String) (t id : String) (new : Subscription)
    (before mid after : Option Subscription)
    → IsFresh t new
    → mid ≡ (elim before [ some s ↦ some s | none ↦ if t === id then some new else none ])
    → Added ids id mid after
    → Added (t ∷ ids) id before after
Added-cons ids t id new (some s) mid after fresh e h = rw e at h
Added-cons ids t id new none mid after fresh e h = elim (Bool-cases (t === id)) [
  | inl same ↦
      let added : mid ≡ some new = ground arith in
      let kept : after ≡ some new = rw added at h in
      rw kept (ground arith, ground (arith, eq_iff t id))
  | inr other ↦
      let absent : mid ≡ none = ground arith in
      let h' : Added ids id none after = rw absent at h in Added-skip ids t id after other h'
]

-- A local subscription that the second loop removes.
abbrev pub is_gone : List String → Subscription → Bool
is_gone ids l = not l.internal && not (includes l.id ids)

Added-Synced :
    (ids : List String) (id : String) (before mid : Option Subscription)
    → ((s : Subscription) → mid ≡ some s → s.id ≡ id)
    → Added ids id before mid
    → Synced ids id before
        (if (elim mid [ none ↦ false | some s ↦ is_gone ids s ]) then none else mid)
Added-Synced ids id (some s) mid key h = let same : s.id ≡ id = key s h in rw h (ground arith)
Added-Synced ids id none none key h = h
Added-Synced ids id none (some s) key (h, fresh) =
    let same : s.id ≡ id = fresh.0 in
    let kept : is_gone ids s ≡ false = rw (same, h) (ground arith) in rw kept (h, fresh)

module _ (d : Dexie) where
  pub get-add :
      (base_url topic : String) (opts : Opts) (db : Db d) (id : String)
      → get d id (add d base_url topic opts db).0 ≡ (elim (get d id db) [
        | some s ↦ some s
        | none ↦
            if topic_url base_url topic === id
            then some (new_subscription base_url topic opts)
            else none
      ])
  unfolding add get new_subscription
  get-add base_url topic opts db id = ground (
    arith,
    d.subscriptions.get-put id (new_subscription base_url topic opts) db.subscriptions,
    eq_iff (topic_url base_url topic) id,
  )

  id-add :
      (base_url topic : String) (opts : Opts) (db : Db d)
      → (add d base_url topic opts db).1.id ≡ topic_url base_url topic
  unfolding add get new_subscription
  id-add base_url topic opts db = elim (Option-cases (get d (topic_url base_url topic) db)) [
    | inl e ↦ ground arith
    | inr (s, e) ↦
        let k : s.id ≡ topic_url base_url topic =
          get-key d.subscriptions (topic_url base_url topic) db.subscriptions s e in
        ground arith
  ]

  pub add_remotes-Added :
      (config : Config) (reservations : Option (List Reservation))
      (remotes : List RemoteSubscription) (db : Db d) (id : String)
      → Added
          (map remote_id remotes)
          id
          (get d id db)
          (get d id (add_remotes d config reservations remotes db).0)
  unfolding add_remotes new_subscription
  add_remotes-Added config reservations [] db id = Added-nil id (get d id db)
  add_remotes-Added config reservations (r ∷ rs) db id =
      Added-cons (map remote_id rs) (remote_id r) id _ (get d id db) _ _ (refl, refl, refl, refl)
        (get-add r.base_url r.topic _ db id) (add_remotes-Added config reservations rs _ id)

  pub ids-add_remotes :
      (config : Config) (reservations : Option (List Reservation))
      (remotes : List RemoteSubscription) (db : Db d)
      → (add_remotes d config reservations remotes db).1 ≡ map remote_id remotes
  unfolding add_remotes
  ids-add_remotes config reservations [] db = refl
  ids-add_remotes config reservations (r ∷ rs) db =
      ap₂ ◌∷◌ (id-add r.base_url r.topic _ db) (ids-add_remotes config reservations rs _)

  get-remove :
      (id j : String) (db : Db d)
      → get d id (remove d j db) ≡ (if j === id then none else get d id db)
  unfolding get remove
  get-remove id j db = get-delete d.subscriptions id j db.subscriptions

  get-remove_missing :
      (ids : List String) (id : String) (locals : List Subscription) (db : Db d)
      → get d id (remove_missing d ids locals db)
        ≡ (if any (λ l. l.id === id && is_gone ids l) locals then none else get d id db)
  unfolding remove_missing
  get-remove_missing ids id [] db = refl
  get-remove_missing ids id (l ∷ ls) db = ground (
    arith,
    get-remove_missing ids id ls db,
    get-remove_missing ids id ls (remove d l.id db),
    get-remove id l.id db,
  )

  pub id-get : (id : String) (db : Db d) (s : Subscription) → get d id db ≡ some s → s.id ≡ id
  unfolding get
  id-get id db s h = get-key d.subscriptions id db.subscriptions s h

  -- After a sync, a subscription that was there is kept as it was if it is internal or among the
  -- remote ones, and is gone otherwise; one that was not there is there exactly if it is among the
  -- remote ones, and then it is fresh: not muted, nothing received, not internal.
  pub sync_from_remote-Synced :
      (config : Config) (remotes : List RemoteSubscription)
      (reservations : Option (List Reservation)) (db : Db d) (id : String)
      → Synced
          (map remote_id remotes)
          id
          (get d id db)
          (get d id (sync_from_remote d config remotes reservations db))
  unfolding sync_from_remote
  sync_from_remote-Synced config remotes reservations db id =
      let mid = add_remotes d config reservations remotes db in
      let ids = ids-add_remotes config reservations remotes db in
      rw
        (
          ids,
          get-remove_missing (map remote_id remotes) id
              (d.subscriptions.to_array mid.0.subscriptions) mid.0,
          any-to_array d.subscriptions (is_gone (map remote_id remotes)) id mid.0.subscriptions,
        )
        (Added-Synced (map remote_id remotes) id (get d id db) (get d id mid.0) (id-get id mid.0)
          (add_remotes-Added config reservations remotes db id))
