-- ===== src/Prefs/Laws.antt =====
-- What a preference reads after it, or another one, was set.
use coop_messenger.Prelude.{arith, ℕ, ◌≡◌, some}
use coop_messenger.Prelude.Decimal.{number-to_string, to_string}
use coop_messenger.Types.{text}
use coop_messenger.Db.{Dexie, Db}
use coop_messenger.Prefs.{set_min_priority, min_priority, set_delete_after, delete_after}

module _ (d : Dexie) where
  -- The numbers are stored as text: reading one back gives the number that was set, and setting one
  -- leaves the other alone.
  pub delete_after-set :
      (n : ℕ) (db : Db d)
      → (delete_after d (set_delete_after d n db) ≡ some n)
        × (min_priority d (set_delete_after d n db) ≡ min_priority d db)
        × (min_priority d (set_min_priority d n db) ≡ some n)
        × (delete_after d (set_min_priority d n db) ≡ delete_after d db)
  unfolding delete_after set_delete_after min_priority set_min_priority
  delete_after-set n db = ground (
    arith,
    number-to_string n,
    d.prefs.get-put "deleteAfter" (record { key = "deleteAfter"; value = text (to_string n) })
        db.prefs,
    d.prefs.get-put "minPriority" (record { key = "deleteAfter"; value = text (to_string n) })
        db.prefs,
    d.prefs.get-put "minPriority" (record { key = "minPriority"; value = text (to_string n) })
        db.prefs,
    d.prefs.get-put "deleteAfter" (record { key = "minPriority"; value = text (to_string n) })
        db.prefs,
  )
