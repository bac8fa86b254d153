-- ===== src/ConnectionManager.antt =====
-- web/src/app/ConnectionManager.js: one connection for each subscription and user. `connections`
-- is a JavaScript Map, the pairs in the order of insertion; `sockets` numbers the sockets that the
-- browser hands out.
pub mod Refresh
pub mod Listeners
use Prim.Native.String
use coop_messenger.Prelude.{
  ℕ, ◌+◌, String, Bool, true, false, not, Option, none, some, List, [], ◌∷◌, ◌++◌, map, find,
  filter, any, eqb, ◌===◌, if◌then◌else◌,
}
use coop_messenger.Types.{Subscription, User}
use coop_messenger.Utils.Urls.{◌&◌}
use coop_messenger.Utils.Hash.{hash_code}
use coop_messenger.Connection.{Connection, Effect, new_connection, start, close}

-- The text of `${value ?? ""}`.
abbrev pub text_or_empty : Option String → String
text_or_empty none = ""
text_or_empty (some s) = s

unfoldable pub make_connection_id : Subscription → Option User → ℕ
make_connection_id s none = hash_code s.id
make_connection_id s (some u) =
    hash_code
      (s.id & "|" & u.username & "|" & text_or_empty u.password & "|" & text_or_empty u.token)

abbrev pub Connections : Type 0
Connections = List (ℕ × Connection)

-- `connections.get(id)`
unfoldable pub get : ℕ → Connections → Option Connection
get id [] = none
get id ((k, c) ∷ m) = if eqb k id then some c else get id m

-- `connections.set(id, c)` for an id that is not there.
abbrev pub insert : ℕ → Connection → Connections → Connections
insert id c m = m ++ (id, c) ∷ []

unfoldable pub remove : ℕ → Connections → Connections
remove id = filter (λ e. not (eqb e.0 id))

pub record Manager : Type 0 where
  pub connections : Connections
  pub sockets : ℕ

-- A subscription with its user, and the id of its connection.
pub record Target : Type 0 where
  pub subscription : Subscription
  pub user : Option User
  pub connection_id : ℕ

unfoldable pub target_of : List User → Subscription → Target
unfolding make_connection_id
target_of users s =
    let user = find (λ u. u.base_url === s.base_url) users in
    record { subscription = s; user = user; connection_id = make_connection_id s user }

unfoldable pub connection_of : Target → Connection
connection_of t =
    new_connection t.connection_id t.subscription.id t.subscription.base_url t.subscription.topic
      t.user t.subscription.last

-- The loop that creates connections, with the ids of those that it starts.
unfoldable pub add_new : List Target → Manager → Manager × List ℕ
unfolding get connection_of
add_new [] m = (m, [])
add_new (t ∷ ts) m =
    let started : Manager = record {
      connections = insert t.connection_id (start m.sockets (connection_of t)) m.connections;
      sockets = m.sockets + 1;
    } in
    elim (get t.connection_id m.connections) [
      | some c ↦ add_new ts m
      | none ↦ let (m', ids) = add_new ts started in (m', t.connection_id ∷ ids)
    ]

-- The loop that closes connections, with what `connection.close()` asks of the browser. The ids are
-- those of connections that are there.
abbrev pub close_of : ℕ → Option Connection → List (ℕ × List Effect)
close_of id none = []
close_of id (some c) = (id, (close c).1) ∷ []

unfoldable pub delete_old : List ℕ → Manager → Manager × List (ℕ × List Effect)
unfolding get remove close
delete_old [] m = (m, [])
delete_old (id ∷ ids) m =
    let closing = close_of id (get id m.connections) in
    let (m', closed) = delete_old ids (record m { connections = remove id m.connections }) in
    (m', closing ++ closed)

abbrev pub includes_id : ℕ → List ℕ → Bool
includes_id id = any (λ k. eqb k id)

abbrev pub target_ids : List Target → List ℕ
target_ids = map (λ t. t.connection_id)

-- `Array.from(this.connections.keys()).filter((id) => !targetIds.includes(id))`
unfoldable pub deleted_ids : List ℕ → Connections → List ℕ
deleted_ids targets m = filter (λ id. not (includes_id id targets)) (map (λ e. e.0) m)

pub record Refreshed : Type 0 where
  pub manager : Manager
  pub started : List ℕ
  pub closed : List (ℕ × List Effect)

-- Missing subscriptions or users leave everything as it is.
unfoldable pub refresh : Option (List Subscription) → Option (List User) → Manager → Refreshed
unfolding target_of add_new delete_old deleted_ids
refresh none users m = record { manager = m; started = []; closed = [] }
refresh (some subscriptions) none m = record { manager = m; started = []; closed = [] }
refresh (some subscriptions) (some users) m =
    let targets = map (target_of users) subscriptions in
    let deleted = deleted_ids (target_ids targets) m.connections in
    let (added, started) = add_new targets m in
    let (manager, closed) = delete_old deleted added in
    record { manager = manager; started = started; closed = closed }
