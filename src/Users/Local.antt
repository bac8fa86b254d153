-- ===== src/Users/Local.antt =====
-- Reading users after saving and deleting them, beside the user of the session.
use coop_messenger.Prelude.{String, ◌≡◌, not, ◌&&◌, none, some, arith, eq_iff, ◌===◌, if◌then◌else◌}
use coop_messenger.Types.{User, Session, Config}
use coop_messenger.Db.{Dexie, Db}
use coop_messenger.Table.Laws.{get-delete}
use coop_messenger.Users.{exists, get, save, delete}

module _ (d : Dexie) (config : Config) (session : Session) where
  -- A saved user is read back and a deleted one is gone, and no other server's user changes; but
  -- while a session exists, what is read for the home server is the same as before, whatever is
  -- saved or deleted.
  pub get-save-delete :
      (user : User) (base_url other : String) (db : Db d)
      → (get d config session other (save d config session user db) ≡ (
          if (user.base_url === other) && not (exists session && (other === config.base_url))
          then some user
          else get d config session other db))
        × (get d config session other (delete d config session base_url db) ≡ (
            if (base_url === other) && not (exists session && (other === config.base_url))
            then none
            else get d config session other db))
  unfolding get save delete
  get-save-delete user base_url other db = (
    ground (
      arith,
      d.users.get-put other user db.users,
      eq_iff user.base_url other,
      eq_iff user.base_url config.base_url,
      eq_iff other config.base_url,
    ),
    ground (
      arith,
      get-delete d.users other base_url db.users,
      eq_iff base_url other,
      eq_iff base_url config.base_url,
      eq_iff other config.base_url,
    ),
  )
