-- ===== src/Tests/Pages.antt =====
-- web/src/components/InvitePage.jsx, SubscriptionPopup.jsx and UpgradeDialog.jsx, on data.
use coop_messenger.Prelude.{
  ◌≤◌, ◌≡◌, refl, true, false, Option, none, some, List, [], ◌∷◌, map, count,
}
use coop_messenger.Types.{Subscription}
use coop_messenger.Db.{assoc_dexie}
use coop_messenger.Errors.{AppError, unauthorized, network_error}
use coop_messenger.Utils.Urls.{topic_url}
use coop_messenger.Account.{Request}
use coop_messenger.Subscriptions.{get, sync_from_remote}
use coop_messenger.Subscriptions.Sync.{Added, IsFresh}
use coop_messenger.Joining.{Client, joined, Invite, handle_join, handle_unsubscribe}
use coop_messenger.Joining.Invited.{is_redirect, handle_join-Added}
use coop_messenger.Joining.Leaving.{handle_unsubscribe_undone}
use coop_messenger.Upgrade.{Tier, Plan, submit_action}
use coop_messenger.Upgrade.Allowed.{is_right, submit_action_right}
use coop_messenger.Tests.{home, alice, chat, remotes, some_db}

abbrev client : Client assoc_dexie
client = record { db = some_db; session = alice; effects = [] }

-- The session has expired.
abbrev expired : Request → Option AppError
expired r = some unauthorized

-- The server cannot be reached.
abbrev offline : Request → Option AppError
offline r = some network_error

abbrev page : Invite
page = record { submitting = true; submit_error = none; join_success = false }

handle_join-Added_example :
    let after =
      handle_join assoc_dexie home expired (joined ("chat" ∷ "garden" ∷ [])) page client in
    Added
      (map (topic_url "https://coop") ("chat" ∷ "garden" ∷ []))
      "https://coop/garden"
      (get assoc_dexie "https://coop/garden" some_db)
      (get assoc_dexie "https://coop/garden" after.1.db)
    × (after.0.join_success ≡ true)
    × (count is_redirect after.1.effects ≤ 1)
handle_join-Added_example =
    handle_join-Added assoc_dexie home expired ("chat" ∷ "garden" ∷ []) page client
      "https://coop/garden"

handle_unsubscribe_undone_example :
    (t : Subscription) × (get assoc_dexie "https://coop/chat" (
        sync_from_remote assoc_dexie home remotes none
          (handle_unsubscribe assoc_dexie home offline chat client).db)
      ≡ some t)
    × IsFresh "https://coop/chat" t
unfolding topic_url
handle_unsubscribe_undone_example =
    handle_unsubscribe_undone assoc_dexie home offline chat client remotes none refl

abbrev tiers : List Tier
tiers =
    record { code = none; reservations = 0 }
    ∷ record { code = some "pro"; reservations = 5 }
    ∷ record { code = some "business"; reservations = 20 }
    ∷ []

abbrev plan : Plan
plan = record { tier_code = some "business"; interval = some "year"; reservations = 7 }

submit_action_right_example :
    is_right
      (some plan)
      tiers
      (some "pro")
      "year"
      false
      (submit_action (some plan) tiers (some "pro") "year" false).0
    ≡ true
submit_action_right_example = submit_action_right (some plan) tiers (some "pro") "year" false
