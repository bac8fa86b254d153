-- ===== src/Replica/Race.antt =====
-- A page that is loaded while another one logs out.
use coop_messenger.Prelude.{String, true, false, ◌≡◌, refl, none, some, [], ◌∷◌, truthy}
use coop_messenger.Types.{Session}
use coop_messenger.Utils.Urls.{◌&◌}
use coop_messenger.Users.{exists, store, reset}
use coop_messenger.Replica.{
  Client, sync_put, delete_all, put, finish, load, ask, Step, loaded, resetting, done, finished, db,
  db_async,
}

pub data Reach (c : Client) : Client → Type 0 where
  here : Reach c c
  next : {m n : Client} → Reach c m → Step m n → Reach c n

abbrev pub session_of : String → String → Session
session_of username token = record { username = some username; token = some token }

-- A user is signed in, and nothing waits.
abbrev pub signed_in : String → String → Client
signed_in username token = record {
  stores = record { local = session_of username token; replica = session_of username token };
  waiting = [];
  unfinished = [];
  write_failed = false;
}

-- The logout waits, and behind it the write of the page that was loaded.
abbrev queued : String → String → Client
queued username token = record (signed_in username token) {
  waiting = delete_all ∷ sync_put (some username) (some token) ∷ [];
}

load-asked :
    (username token : String)
    → truthy (some username) ≡ true
    → truthy (some token) ≡ true
    → load (ask delete_all (signed_in username token)) ≡ queued username token
unfolding load
load-asked username token u t = rw (u, t) refl

Reach-queued :
    (username token : String)
    → truthy (some username) ≡ true
    → truthy (some token) ≡ true
    → Reach (signed_in username token) (queued username token)
Reach-queued username token u t =
    rw (← load-asked username token u t) (next (next here resetting) loaded)

-- The session is gone, and its copy is not.
abbrev pub left_over : String → String → Client
left_over username token = record {
  stores = record {
    local = record { username = none; token = none };
    replica = session_of username token;
  };
  waiting = [];
  unfinished = [];
  write_failed = false;
}

-- If a page is loaded while another page logs its user out, then it can come to this, with no write
-- failing: no session exists, but its copy is there again with the token, and the service worker opens
-- the database of the user, the pages that of no user.
pub load_resurrects :
    (username token : String)
    → truthy (some username) ≡ true
    → truthy (some token) ≡ true
    → Reach (signed_in username token) (left_over username token)
      × (exists (left_over username token).stores.local ≡ false)
      × (db (left_over username token) ≡ "coop")
      × (db_async (left_over username token) ≡ "coop-" & username)
unfolding load put finish store reset db db_async
load_resurrects username token u t = (
  next
      (next
        (next (Reach-queued username token u t)
          (done delete_all (sync_put (some username) (some token) ∷ []) refl))
        (done (sync_put (some username) (some token)) [] refl))
      (finished delete_all [] [] refl),
  refl,
  refl,
  rw u refl,
)
