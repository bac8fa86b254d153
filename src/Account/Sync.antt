-- ===== src/Account/Sync.antt =====
-- web/src/app/AccountApi.js: sync. What the server gives, or the error thrown, is an argument.
pub mod Preferences
use coop_messenger.Prelude.{
  ℕ, ◌≡◌, ◌≢◌, refl, String, Bool, true, false, not, Option, none, some, List, eqb, truthy, arith,
  if◌then◌else◌, ◌∙◌,
}
use coop_messenger.Types.{Config, Session, Reservation, Subscription}
use coop_messenger.Db.{Dexie, Db}
use coop_messenger.Errors.{AppError, unauthorized, Result, ok, raise}
use coop_messenger.Prefs.{set_sound, set_delete_after, set_min_priority}
use coop_messenger.Subscriptions.{RemoteSubscription, sync_from_remote}

pub record NotificationPrefs : Type 0 where
  pub sound : Option String
  pub delete_after : Option ℕ
  pub min_priority : Option ℕ

pub record Account : Type 0 where
  pub notification : Option NotificationPrefs
  pub subscriptions : Option (List RemoteSubscription)
  pub reservations : Option (List Reservation)

pub data SyncResult : Type 0 where
  -- null, undefined, or the account
  not_signed_in failed : SyncResult
  synced : Account → SyncResult

pub record Outcome (d : Dexie) : Type 0 where
  pub db : Db d
  pub session : Session
  pub result : SyncResult

-- `resetAndRedirect` of Session.js
abbrev pub signed_out : Session
signed_out = record { username = none; token = none }

module _ (d : Dexie) where
  -- `if (value) { await set(value) }` for a number: 0 is falsy.
  abbrev set_number : (ℕ → Db d → Db d) → Option ℕ → Db d → Db d
  set_number set none db = db
  set_number set (some n) db = if eqb n 0 then db else set n db

  abbrev set_text : (String → Db d → Db d) → Option String → Db d → Db d
  set_text set none db = db
  set_text set (some s) db = if truthy (some s) then set s db else db

  unfoldable pub apply_prefs : Option NotificationPrefs → Db d → Db d
  apply_prefs none db = db
  apply_prefs (some p) db =
      set_number (set_min_priority d) p.min_priority
        (set_number (set_delete_after d) p.delete_after (set_text (set_sound d) p.sound db))

  unfoldable pub apply_account : Config → Account → Db d → Db d
  unfolding apply_prefs
  apply_account config account db = elim account.subscriptions [
    | none ↦ apply_prefs account.notification db
    | some remotes ↦
        sync_from_remote d config remotes account.reservations (apply_prefs account.notification db)
  ]

  unfoldable pub sync : Config → Session → Result Account → Db d → Outcome d
  unfolding apply_account
  sync config session fetched db =
      if not (truthy session.token)
      then record { db = db; session = session; result = not_signed_in }
      else elim fetched [
        | ok account ↦ record {
          db = apply_account config account db;
          session = session;
          result = synced account;
        }
        | raise e ↦ elim e [
          | unauthorized ↦ record { db = db; session = signed_out; result = failed }
          | other ↦ record { db = db; session = session; result = failed }
        ]
      ]
