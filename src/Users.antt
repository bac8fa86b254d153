-- ===== src/Users.antt =====
-- web/src/app/UserManager.js and web/src/app/Session.js: the users by server, and the session.
pub mod Local
use coop_messenger.Prelude.{
  String, Bool, ◌&&◌, Option, none, some, List, [], ◌∷◌, ◌===◌, truthy, if◌then◌else◌,
}
use coop_messenger.Types.{User, Session, Config}
use coop_messenger.Db.{Dexie, Db}

-- `exists()`: the truth value of `this.username() && this.token()`.
abbrev pub exists : Session → Bool
exists session = truthy session.username && truthy session.token

-- `store(username, token)`, in `localStorage`
unfoldable pub store : String → String → Session → Session
store username token session = record { username = some username; token = some token }

-- `resetAndRedirect`, in `localStorage`
unfoldable pub reset : Session → Session
reset session = record { username = none; token = none }

unfoldable pub local_user : Config → Session → Option User
local_user config session = elim session.username [
  | none ↦ none
  | some username ↦
      if exists session
      then some (record {
        base_url = config.base_url;
        username = username;
        password = none;
        token = session.token;
      })
      else none
]

module _ (d : Dexie) (config : Config) (session : Session) where
  abbrev is_local : String → Bool
  is_local base_url = exists session && (base_url === config.base_url)

  unfoldable pub all : Db d → List User
  unfolding local_user
  all db =
      if exists session
      then (elim (local_user config session) [
        | none ↦ d.users.to_array db.users
        | some u ↦ u ∷ d.users.to_array db.users
      ])
      else d.users.to_array db.users

  unfoldable pub get : String → Db d → Option User
  unfolding local_user
  get base_url db =
      if is_local base_url then local_user config session else d.users.get base_url db.users

  unfoldable pub save : User → Db d → Db d
  save user db =
      if is_local user.base_url then db else record db { users = d.users.put user db.users }

  unfoldable pub delete : String → Db d → Db d
  delete base_url db =
      if is_local base_url then db else record db { users = d.users.delete base_url db.users }
