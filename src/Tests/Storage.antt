-- ===== src/Tests/Storage.antt =====
-- web/src/app/Session.js on data.
use coop_messenger.Prelude.{◌≡◌, refl, false, none, [], inr}
use coop_messenger.Types.{Session}
use coop_messenger.Utils.Urls.{◌&◌}
use coop_messenger.Users.{exists}
use coop_messenger.Replica.{
  Client, ask, load, next_put, next_finished, store_put, storing, done, finished, db, db_async,
}
use coop_messenger.Replica.Agreement as Agreement
use coop_messenger.Replica.Agreement.{first_load, Reach-Agrees}
use coop_messenger.Replica.Race.{Reach, signed_in, left_over, load_resurrects}

abbrev nobody : Session
nobody = record { username = none; token = none }

-- A user logs in.
abbrev logged_in : Client
logged_in =
    next_finished (store_put "bob" "tk_2") [] [] (
      next_put (store_put "bob" "tk_2") []
        (ask (store_put "bob" "tk_2") (first_load nobody nobody)))

Reach-Agrees_example :
    (logged_in.stores.replica ≡ logged_in.stores.local) × (db_async logged_in ≡ db logged_in)
unfolding load
Reach-Agrees_example =
    Reach-Agrees nobody nobody logged_in (inr refl)
      (Agreement.next
        (Agreement.next (Agreement.next Agreement.here (storing "bob" "tk_2") (refl, refl))
          (done (store_put "bob" "tk_2") [] refl) tt)
        (finished (store_put "bob" "tk_2") [] [] refl) tt)
      refl refl refl

load_resurrects_example :
    Reach (signed_in "bob" "tk_2") (left_over "bob" "tk_2")
    × (exists (left_over "bob" "tk_2").stores.local ≡ false)
    × (db (left_over "bob" "tk_2") ≡ "coop")
    × (db_async (left_over "bob" "tk_2") ≡ "coop-" & "bob")
load_resurrects_example = load_resurrects "bob" "tk_2" refl refl
