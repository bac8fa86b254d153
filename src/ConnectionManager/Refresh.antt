-- ===== src/ConnectionManager/Refresh.antt =====
-- refresh: which connections there are afterwards.
use coop_messenger.Utils.Urls.{◌&◌}
use coop_messenger.Utils.Hash.{hash_code, hash_code_collision}
use coop_messenger.Prelude.{
  ℕ, ◌+◌, String, ◌≡◌, refl, ap, sym, true, false, not, ◌&&◌, Option, none, some, List, [], ◌∷◌,
  map, find, arith, eqb, eqb_iff, if◌then◌else◌, Option-cases, Bool-cases, inl, inr, ◌∙◌,
}
use coop_messenger.Types.{Subscription, User}
use coop_messenger.Connection.{Connection, Effect, start, close}
use coop_messenger.ConnectionManager.{
  make_connection_id, Connections, get, insert, remove, Manager, Target, target_of, connection_of,
  add_new, delete_old, includes_id, target_ids, deleted_ids, refresh,
}

get-insert :
    (id k : ℕ) (c : Connection) (m : Connections)
    → get id (insert k c m)
      ≡ (elim (get id m) [ some old ↦ some old | none ↦ if eqb k id then some c else none ])
unfolding get
get-insert id k c [] = refl
get-insert id k c ((j, x) ∷ m) = ground (arith, get-insert id k c m)

get-remove :
    (id k : ℕ) (m : Connections) → get id (remove k m) ≡ (if eqb k id then none else get id m)
unfolding get remove
get-remove id k [] = ground arith
get-remove id k ((j, x) ∷ m) = ground (arith, get-remove id k m)

get-delete_old :
    (id : ℕ) (ids : List ℕ) (m : Manager)
    → get id (delete_old ids m).0.connections
      ≡ (if includes_id id ids then none else get id m.connections)
unfolding delete_old
get-delete_old id [] m = refl
get-delete_old id (k ∷ ids) m =
    get-delete_old id ids (record m { connections = remove k m.connections })
    ∙ ground (arith, get-remove id k m.connections)

-- What is asked of the browser for the connection with an id, if it is closed.
abbrev pub closing : ℕ → List (ℕ × List Effect) → Option (List Effect)
closing id [] = none
closing id ((k, effects) ∷ rest) = if eqb k id then some effects else closing id rest

abbrev pub effects_of : Option Connection → Option (List Effect)
effects_of none = none
effects_of (some c) = some (close c).1

closing-delete_old :
    (id : ℕ) (ids : List ℕ) (m : Manager)
    → closing id (delete_old ids m).1
      ≡ (if includes_id id ids then effects_of (get id m.connections) else none)
unfolding delete_old
closing-delete_old id [] m = refl
closing-delete_old id (k ∷ ids) m =
    let rest = closing-delete_old id ids (record m { connections = remove k m.connections }) in
    elim (Option-cases (get k m.connections)) [
      | inl gone ↦ ground (arith, gone, rest, get-remove id k m.connections, eqb_iff k id)
      | inr (c, there) ↦ ground (arith, there, rest, get-remove id k m.connections, eqb_iff k id)
    ]

-- An id is to be deleted if it has a connection and is no target.
includes_id-deleted_ids :
    (id : ℕ) (targets : List ℕ) (m : Connections)
    → includes_id id (deleted_ids targets m)
      ≡ (not (includes_id id targets) && (elim (get id m) [ none ↦ false | some c ↦ true ]))
unfolding deleted_ids get
includes_id-deleted_ids id targets [] = ground arith
includes_id-deleted_ids id targets ((k, c) ∷ m) =
    ground (arith, includes_id-deleted_ids id targets m, eqb_iff k id)

-- A connection made for a target: started, for the subscription of the target.
abbrev pub IsStartedFor : Target → Connection → Type 0
IsStartedFor t c = (socket : ℕ) × (c ≡ start socket (connection_of t))

-- The first target with an id.
abbrev pub first_target : ℕ → List Target → Option Target
first_target id = find (λ t. eqb t.connection_id id)

abbrev pub Added : ℕ → List Target → Option Connection → Option Connection → Type 0
Added id ts (some c) after = after ≡ some c
Added id ts none none = first_target id ts ≡ none
Added id ts none (some c) = (t : Target) × (first_target id ts ≡ some t) × IsStartedFor t c

Added-nil : (id : ℕ) (o : Option Connection) → Added id [] o o
Added-nil id none = refl
Added-nil id (some c) = refl

Added-skip :
    (id : ℕ) (t : Target) (ts : List Target) (before after : Option Connection)
    → (before ≡ none → eqb t.connection_id id ≡ false)
    → Added id ts before after
    → Added id (t ∷ ts) before after
Added-skip id t ts (some c) after other h = h
Added-skip id t ts none none other h = rw (other refl) h
Added-skip id t ts none (some c) other (u, first, made) = (u, rw (other refl) first, made)

Added-cons :
    (id : ℕ) (t : Target) (ts : List Target) (socket : ℕ) (before mid after : Option Connection)
    → mid ≡ (elim before [
      | some old ↦ some old
      | none ↦ if eqb t.connection_id id then some (start socket (connection_of t)) else none
    ])
    → Added id ts mid after
    → Added id (t ∷ ts) before after
Added-cons id t ts socket (some c) mid after e h = rw e at h
Added-cons id t ts socket none mid after e h = elim (Bool-cases (eqb t.connection_id id)) [
  | inl same ↦
      let made : mid ≡ some (start socket (connection_of t)) = ground arith in
      let kept : after ≡ some (start socket (connection_of t)) = rw made at h in
      rw kept (t, ground arith, (socket, refl))
  | inr other ↦
      let absent : mid ≡ none = ground arith in
      Added-skip id t ts none after (λ x. other) (rw absent at h)
]

ids_apart :
    (id k : ℕ) (m : Connections) (c : Connection)
    → get id m ≡ none
    → get k m ≡ some c
    → eqb k id ≡ false
ids_apart id k m c h e = elim (Bool-cases (eqb k id)) [
  | inl same ↦
      let k_is_id : k ≡ id = (eqb_iff k id).0 same in
      let found : get id m ≡ some c = rw k_is_id at e in cc
  | inr other ↦ other
]

abbrev after_start : Target → Manager → Manager
after_start t m = record {
  connections = insert t.connection_id (start m.sockets (connection_of t)) m.connections;
  sockets = m.sockets + 1;
}

add_new_fresh :
    (t : Target) (ts : List Target) (m : Manager)
    → get t.connection_id m.connections ≡ none
    → add_new (t ∷ ts) m
      ≡ ((add_new ts (after_start t m)).0, t.connection_id ∷ (add_new ts (after_start t m)).1)
unfolding add_new
add_new_fresh t ts m e = ground arith

add_new_old :
    (t : Target) (ts : List Target) (m : Manager) (c : Connection)
    → get t.connection_id m.connections ≡ some c
    → add_new (t ∷ ts) m ≡ add_new ts m
unfolding add_new
add_new_old t ts m c e = ground arith

add_new-nil : (m : Manager) → add_new [] m ≡ (m, [])
unfolding add_new
add_new-nil m = refl

add_new-Added :
    (id : ℕ) (ts : List Target) (m : Manager)
    → Added id ts (get id m.connections) (get id (add_new ts m).0.connections)
add_new-Added id [] m = rw (add_new-nil m) (Added-nil id (get id m.connections))
add_new-Added id (t ∷ ts) m = elim (Option-cases (get t.connection_id m.connections)) [
  | inl e ↦
      let new = start m.sockets (connection_of t) in
      rw (add_new_fresh t ts m e) (
        Added-cons id t ts m.sockets (get id m.connections)
          (get id (insert t.connection_id new m.connections)) _
          (get-insert id t.connection_id new m.connections) (add_new-Added id ts (after_start t m)))
  | inr (c, e) ↦ rw (add_new_old t ts m c e) (
      Added-skip id t ts (get id m.connections) _
        (λ h. ids_apart id t.connection_id m.connections c h e) (add_new-Added id ts m))
]

includes_id-target_ids :
    (id : ℕ) (ts : List Target)
    → includes_id id (target_ids ts) ≡ (elim (first_target id ts) [ none ↦ false | some t ↦ true ])
includes_id-target_ids id [] = refl
includes_id-target_ids id (t ∷ ts) = ground (arith, includes_id-target_ids id ts)

-- What a refresh makes of the connection with an id. One that is there is kept untouched if it is a
-- target and is gone otherwise; one that is not there is started exactly for a target, the first one
-- with the id.
abbrev pub IsReconciled : ℕ → List Target → Option Connection → Option Connection → Type 0
IsReconciled id ts (some c) after =
    after ≡ (if includes_id id (target_ids ts) then some c else none)
IsReconciled id ts none none = first_target id ts ≡ none
IsReconciled id ts none (some c) = (t : Target) × (first_target id ts ≡ some t) × IsStartedFor t c

Added-IsReconciled :
    (id : ℕ) (ts : List Target) (before mid : Option Connection)
    → Added id ts before mid
    → IsReconciled id ts before (
        if not (includes_id id (target_ids ts)) && (elim before [ none ↦ false | some c ↦ true ])
        then none
        else mid)
Added-IsReconciled id ts (some c) mid h = rw h (ground arith)
Added-IsReconciled id ts none none h = ground arith
Added-IsReconciled id ts none (some c) (t, first, made) =
    rw (includes_id-target_ids id ts, first) (t, first, made)

closing-refresh :
    (id : ℕ) (ts : List Target) (m mid : Option Connection)
    → Added id ts m mid
    → (if not (includes_id id (target_ids ts)) && (elim m [ none ↦ false | some c ↦ true ])
        then effects_of mid
        else none)
      ≡ (if includes_id id (target_ids ts) then none else effects_of m)
closing-refresh id ts none mid h = ground arith
closing-refresh id ts (some c) mid h = rw h (ground arith)

-- After a refresh there is a connection for exactly the targets: those that were there already are
-- kept as they are, the missing ones are started, each for the first subscription with its id, and
-- all others are closed: `close` is called for exactly those that were there and are no targets.
pub refresh-IsReconciled :
    (subscriptions : List Subscription) (users : List User) (m : Manager) (id : ℕ)
    → let ts = map (target_of users) subscriptions in
      let after = refresh (some subscriptions) (some users) m in
      IsReconciled id ts (get id m.connections) (get id after.manager.connections)
      × (closing id after.closed
          ≡ (if includes_id id (target_ids ts) then none else effects_of (get id m.connections)))
unfolding refresh
refresh-IsReconciled subscriptions users m id =
    let ts = map (target_of users) subscriptions in
    let added = add_new-Added id ts m in
    rw
      (
        get-delete_old id (deleted_ids (target_ids ts) m.connections) (add_new ts m).0,
        closing-delete_old id (deleted_ids (target_ids ts) m.connections) (add_new ts m).0,
        includes_id-deleted_ids id (target_ids ts) m.connections,
      )
      (
        Added-IsReconciled id ts (get id m.connections) _ added,
        closing-refresh id ts (get id m.connections) _ added,
      )

-- Two subscriptions without a user whose ids differ in "Aa" against "BB" share one connection id, so
-- a refresh starts a connection for the first only, and the second gets none.
refresh_collision :
    (s t : Subscription) (x y : String)
    → s.id ≡ x & "Aa" & y
    → t.id ≡ x & "BB" & y
    → (refresh (some (s ∷ t ∷ [])) (some []) (record { connections = []; sockets = 0 })).started
      ≡ make_connection_id s none ∷ []
unfolding refresh target_of make_connection_id add_new get
refresh_collision s t x y es et =
    let same : hash_code s.id ≡ hash_code t.id =
      ap hash_code es ∙ (hash_code_collision x y ∙ ap hash_code (sym et)) in
    ground arith
