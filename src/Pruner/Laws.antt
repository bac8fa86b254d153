-- ===== src/Pruner/Laws.antt =====
-- The threshold of the pruner beside that of the poller.
use coop_messenger.Prelude.{
  ℕ, ◌-◌, ◌<◌, ◌≡◌, Bool, true, false, not, ◌&&◌, some, List, [], ◌∷◌, all, arith, eqb, ltb,
}
use coop_messenger.Types.{Message}
use coop_messenger.Db.{Dexie, Db}
use coop_messenger.Prefs.{delete_after}
use coop_messenger.Subscriptions.Stored.{prune_notifications}
use coop_messenger.Subscriptions.Stored.Laws.{stored, stored-prune_notifications}
use coop_messenger.Poller.{round_seconds, prune_threshold, recent_notifications}
use coop_messenger.Pruner.{prune}

all-recent :
    (t : ℕ) (ms : List Message) → all (λ m. not (ltb m.time t)) (recent_notifications t ms) ≡ true
unfolding recent_notifications
all-recent t [] = ground arith
all-recent t (m ∷ ms) = ground (arith, all-recent t ms)

positive_threshold :
    (now after : ℕ) → 0 < after → prune_threshold (some after) now ≡ round_seconds now - after
unfolding prune_threshold
positive_threshold now after h = ground arith

module _ (d : Dexie) where
  prune_positive :
      (now after : ℕ) (db : Db d)
      → delete_after d db ≡ some after
      → 0 < after
      → prune d now db ≡ prune_notifications d (prune_threshold (some after) now) db
  unfolding prune
  prune_positive now after db e h =
      let positive : eqb after 0 ≡ false = ground arith in
      rw (positive_threshold now after h) (ground arith)

  -- With a retention time of more than 0 seconds, pruning deletes exactly the notifications before
  -- the threshold of the poller, as counted by any test, and nothing that a poll at the same time
  -- lets through is old enough to be pruned.
  pub prune-prune_threshold :
      (now after : ℕ) (fetched : List Message) (p : Message → Bool) (db : Db d)
      → delete_after d db ≡ some after
      → 0 < after
      → (stored d p (prune d now db)
          ≡ stored d (λ n. not (ltb n.time (prune_threshold (some after) now)) && p n) db)
        × (all
              (λ m. not (ltb m.time (prune_threshold (some after) now)))
              (recent_notifications (prune_threshold (some after) now) fetched)
            ≡ true)
  prune-prune_threshold now after fetched p db e h =
      let t = prune_threshold (some after) now in
      (
        rw (prune_positive now after db e h) ((stored-prune_notifications d t p db).1),
        all-recent t fetched,
      )
