-- ===== src/Pruner.antt =====
-- web/src/app/Pruner.js: prune. The time is in milliseconds.
pub mod Laws
use coop_messenger.Prelude.{ℕ, ◌-◌, Option, none, some, eqb, if◌then◌else◌}
use coop_messenger.Db.{Dexie, Db}
use coop_messenger.Prefs.{delete_after}
use coop_messenger.Subscriptions.Stored.{prune_notifications}
use coop_messenger.Poller.{round_seconds}

module _ (d : Dexie) where
  -- With 0 pruning is disabled. NaN is no key, so Dexie throws, which is only logged. Where the
  -- difference would be negative nothing is older, and so it is at 0.
  unfoldable pub prune : ℕ → Db d → Db d
  prune now_millis db = elim (delete_after d db) [
    | none ↦ db
    | some after ↦
        if eqb after 0 then db else prune_notifications d (round_seconds now_millis - after) db
  ]
