-- ===== src/Replica.antt =====
-- web/src/app/Session.js and web/src/app/db.js: the session in `localStorage`, its copy in IndexedDB that
-- the service worker reads, and the name of the database that each of them leads to. Pages of the
-- same origin share both, and IndexedDB runs the writes in the order in which they were asked for.
pub mod Agreement
pub mod Race
use coop_messenger.Prelude.{
  String, Bool, true, false, ◌≡◌, Option, none, some, List, [], ◌∷◌, ◌++◌, truthy, if◌then◌else◌,
}
use coop_messenger.Types.{Session}
use coop_messenger.Utils.Urls.{◌&◌}
use coop_messenger.Users.{exists, store, reset}

-- The keys "user" and "token" of `localStorage`, and of the table `kv` of the copy.
pub record Stores : Type 0 where
  pub local : Session
  pub replica : Session

-- What waits for IndexedDB: `bulkPut` of the constructor, which writes what it read; `bulkPut` of
-- `store`; and `delete` of `resetAndRedirect`.
pub data Write : Type 0 where
  sync_put : Option String → Option String → Write
  store_put : String → String → Write
  delete_all : Write

pub record Client : Type 0 where
  pub stores : Stores
  pub waiting : List Write
  -- what IndexedDB has done, and what stands behind its `await` has not run yet
  pub unfinished : List Write
  -- some write failed
  pub write_failed : Bool

abbrev pub is_sync : Write → Bool
is_sync (sync_put username token) = true
is_sync (store_put username token) = false
is_sync delete_all = false

-- What IndexedDB does for a write.
unfoldable pub put : Write → Session → Session
put (sync_put username token) replica = record { username = username; token = token }
put (store_put username token) replica = record { username = some username; token = some token }
put delete_all replica = record { username = none; token = none }

-- What stands behind the `await` of a write.
unfoldable pub finish : Write → Session → Session
unfolding store reset
finish (sync_put username token) local = local
finish (store_put username token) local = store username token local
finish delete_all local = reset local

-- The constructor, when a page is loaded.
unfoldable pub load : Client → Client
load c =
    if exists c.stores.local
    then record c {
      waiting = c.waiting ++ sync_put c.stores.local.username c.stores.local.token ∷ [];
    }
    else c

abbrev pub ask : Write → Client → Client
ask w c = record c { waiting = c.waiting ++ w ∷ [] }

-- IndexedDB has done a write; the page goes on later. After that of the constructor it only logs.
abbrev pub next_put : Write → List Write → Client → Client
next_put w ws c = record c {
  stores = record { local = c.stores.local; replica = put w c.stores.replica };
  waiting = ws;
  unfinished = if is_sync w then c.unfinished else c.unfinished ++ w ∷ [];
}

-- A write fails: the exception ends `store` and `resetAndRedirect`, and the constructor only logs. The
-- rows that `bulkPut` has written before that stay.
abbrev pub next_failed : Write → List Write → Bool → Bool → Client → Client
next_failed w ws user_put token_put c = record c {
  stores = record {
    local = c.stores.local;
    replica = record {
      username = if user_put then (put w c.stores.replica).username else c.stores.replica.username;
      token = if token_put then (put w c.stores.replica).token else c.stores.replica.token;
    };
  };
  waiting = ws;
  write_failed = true;
}

-- A page goes on behind its `await`.
abbrev pub next_finished : Write → List Write → List Write → Client → Client
next_finished w xs ys c = record c {
  stores = record { local = finish w c.stores.local; replica = c.stores.replica };
  unfinished = xs ++ ys;
}

pub data Step (c : Client) : Client → Type 0 where
  loaded : Step c (load c)
  storing : (username token : String) → Step c (ask (store_put username token) c)
  resetting : Step c (ask delete_all c)
  done : (w : Write) (ws : List Write) → c.waiting ≡ w ∷ ws → Step c (next_put w ws c)
  failed :
      (w : Write) (ws : List Write) (user_put token_put : Bool)
      → c.waiting ≡ w ∷ ws
      → Step c (next_failed w ws user_put token_put c)
  finished :
      (w : Write) (xs ys : List Write)
      → c.unfinished ≡ xs ++ w ∷ ys
      → Step c (next_finished w xs ys c)

-- `createDatabase`: the name of the database.
unfoldable pub database_name : Option String → String
database_name none = "coop"
database_name (some username) = if truthy (some username) then "coop-" & username else "coop"

-- `db()`, in a page, and `dbAsync()`, in the service worker.
unfoldable pub db : Client → String
unfolding database_name
db c = database_name c.stores.local.username

unfoldable pub db_async : Client → String
unfolding database_name
db_async c = database_name c.stores.replica.username
