-- ===== src/Workers/Restart.antt =====
-- What runs after the app was mounted, unmounted and mounted again, any number of times.
use coop_messenger.Prelude.{ℕ, ◌≡◌, refl, ap, ◌∙◌, none, some, List, [], ◌∷◌, arith}
use coop_messenger.Workers.{Worker, Workers, start_workers, stop_workers}

abbrev idle : Worker
idle = record { timer = none; running = [] }

abbrev pub all_idle : Workers
all_idle = record { poller = idle; pruner = idle; account_api = idle; version_checker = idle }

-- One mount and unmount for each interval number.
abbrev pub cycles : List ℕ → Workers → Workers
cycles [] w = w
cycles (id ∷ ids) w = cycles ids (stop_workers (start_workers id w))

-- The state after the first unmount: nothing runs, and two of the timers are not null.
abbrev stopped : ℕ → Workers
stopped id = record {
  poller = record { timer = some id; running = [] };
  pruner = idle;
  account_api = record { timer = some id; running = [] };
  version_checker = idle;
}

cycle_idle : (id : ℕ) → stop_workers (start_workers id all_idle) ≡ stopped id
unfolding start_workers stop_workers
cycle_idle id = ground arith

cycle_stopped : (id id' : ℕ) → stop_workers (start_workers id' (stopped id)) ≡ stopped id
unfolding start_workers stop_workers
cycle_stopped id id' = ground arith

cycles-stopped : (ids : List ℕ) (id : ℕ) → cycles ids (stopped id) ≡ stopped id
cycles-stopped [] id = refl
cycles-stopped (id' ∷ ids) id = rw (cycle_stopped id id') (cycles-stopped ids id)

cycles_again : (first : ℕ) (ids : List ℕ) → cycles (first ∷ ids) all_idle ≡ stopped first
cycles_again first ids = ap (cycles ids) (cycle_idle first) ∙ cycles-stopped ids first

-- After the app was unmounted once or more, a mount starts the pruner and the version checker again,
-- and neither the poller nor the account worker: their timers were never reset to null.
start_workers_again :
    (first : ℕ) (ids : List ℕ) (id : ℕ)
    → ((start_workers id (cycles (first ∷ ids) all_idle)).poller.running ≡ [])
      × ((start_workers id (cycles (first ∷ ids) all_idle)).account_api.running ≡ [])
      × ((start_workers id (cycles (first ∷ ids) all_idle)).pruner.running ≡ id ∷ [])
      × ((start_workers id (cycles (first ∷ ids) all_idle)).version_checker.running ≡ id ∷ [])
unfolding start_workers
start_workers_again first ids id = rw (cycles_again first ids) (refl, refl, refl, refl)
