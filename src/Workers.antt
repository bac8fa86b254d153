-- ===== src/Workers.antt =====
-- The background workers of hooks.js: Poller.js, Pruner.js, AccountApi.js and VersionChecker.js, as
-- to the interval that each keeps running. The browser hands out the number of a new interval, which
-- is not 0; `clearTimeout` and `clearInterval` stop either kind.
pub mod Restart
use coop_messenger.Prelude.{ℕ, Bool, not, Option, none, some, List, [], ◌∷◌, eqb, filter}

-- A worker's `timer`, null for `none`, and the intervals that run for it.
pub record Worker : Type 0 where
  pub timer : Option ℕ
  pub running : List ℕ

abbrev pub clear_interval : Option ℕ → List ℕ → List ℕ
clear_interval none running = running
clear_interval (some id) running = filter (λ x. not (eqb x id)) running

abbrev pub set_interval : ℕ → Worker → Worker
set_interval id w = record { timer = some id; running = id ∷ w.running }

-- `startWorker` of Poller.js, Pruner.js and AccountApi.js
unfoldable pub start_worker : ℕ → Worker → Worker
start_worker id w = elim w.timer [ some old ↦ w | none ↦ set_interval id w ]

-- `stopWorker` of Poller.js and AccountApi.js
unfoldable pub stop_worker : Worker → Worker
stop_worker w = record w { running = clear_interval w.timer w.running }

-- `stopWorker` of Pruner.js and VersionChecker.js
unfoldable pub stop_and_reset : Worker → Worker
stop_and_reset w = elim w.timer [
  | none ↦ w
  | some id ↦ record { timer = none; running = clear_interval (some id) w.running }
]

-- `startWorker` of VersionChecker.js
unfoldable pub start_always : ℕ → Worker → Worker
start_always id w = set_interval id w

pub record Workers : Type 0 where
  pub poller : Worker
  pub pruner : Worker
  pub account_api : Worker
  pub version_checker : Worker

-- `startWorkers`; the same number may stand for the interval of each.
unfoldable pub start_workers : ℕ → Workers → Workers
unfolding start_worker start_always
start_workers id w = record {
  poller = start_worker id w.poller;
  pruner = start_worker id w.pruner;
  account_api = start_worker id w.account_api;
  version_checker = start_always id w.version_checker;
}

unfoldable pub stop_workers : Workers → Workers
unfolding stop_worker stop_and_reset
stop_workers w = record {
  poller = stop_worker w.poller;
  pruner = stop_and_reset w.pruner;
  account_api = stop_worker w.account_api;
  version_checker = stop_and_reset w.version_checker;
}
