-- ===== src/Settings/Shared.antt =====
-- A setting that is changed on one device, sent to the account, and synced to another device.
use coop_messenger.Prelude.{
  ℕ, ◌≡◌, refl, ◌∙◌, String, Bool, true, false, not, ◌&&◌, Option, none, some, List, [], ◌∷◌, ◌++◌,
  any, eqb, truthy, ◌===◌, Bool-cases, Option-cases, inl, inr, arith,
}
use coop_messenger.Types.{Config, Session, Subscription, Reservation, text}
use coop_messenger.Db.{Dexie, Db}
use coop_messenger.Errors.{AppError, ok}
use coop_messenger.Subscriptions.{
  Opts, add, add_remotes, remove, remove_missing, sync_from_remote, RemoteSubscription,
}
use coop_messenger.Prefs as Prefs
use coop_messenger.Users.{exists}
use coop_messenger.Account.{Request, Body, str, num, object}
use coop_messenger.Account.Requests.{update_settings}
use coop_messenger.Account.Sync.{NotificationPrefs, Account, apply_prefs, apply_account, sync}
use coop_messenger.Account.Sync.Preferences.{delete_after-apply_prefs, sound-set_sound}
use coop_messenger.Prefs.Laws.{delete_after-set}
use coop_messenger.Joining.{Client, request, perform}
use coop_messenger.Settings.{
  Choice, sound, min_priority, delete_after, handle_change, maybe_update_account_settings,
  handle_account_settings_change, no_prefs,
}

-- The notification settings, with a value that is not falsy.
abbrev pub is_synced : Choice → Bool
is_synced (sound s) = truthy (some s)
is_synced (min_priority n) = not (eqb n 0)
is_synced (delete_after n) = not (eqb n 0)
is_synced other = false

abbrev pub payload_of : Choice → Body
payload_of (sound s) = ("notification", object "sound" (str s)) ∷ []
payload_of (min_priority n) = ("notification", object "min_priority" (num n)) ∷ []
payload_of (delete_after n) = ("notification", object "delete_after" (num n)) ∷ []
payload_of other = []

module _ (d : Dexie) where
  -- What the getters of the preferences read.
  abbrev pub Reads : Choice → Db d → Type 0
  Reads (sound s) db = Prefs.sound d db ≡ text s
  Reads (min_priority n) db = Prefs.min_priority d db ≡ some n
  Reads (delete_after n) db = Prefs.delete_after d db ≡ some n
  Reads other db = Unit

  apply_prefs-sound :
      (s : String) (p : NotificationPrefs) (db : Db d)
      → truthy (some s) ≡ true
      → Prefs.sound d (apply_prefs d (some (record p { sound = some s })) db) ≡ text s
  apply_prefs-sound s p db h =
      (delete_after-apply_prefs d (record p { sound = some s }) db).2 ∙ ground (arith, h)

  apply_prefs-min_priority :
      (n : ℕ) (p : NotificationPrefs) (db : Db d)
      → not (eqb n 0) ≡ true
      → Prefs.min_priority d (apply_prefs d (some (record p { min_priority = some n })) db) ≡ some n
  apply_prefs-min_priority n p db h =
      (delete_after-apply_prefs d (record p { min_priority = some n }) db).1 ∙ ground (arith, h)

  apply_prefs-delete_after :
      (n : ℕ) (p : NotificationPrefs) (db : Db d)
      → not (eqb n 0) ≡ true
      → Prefs.delete_after d (apply_prefs d (some (record p { delete_after = some n })) db) ≡ some n
  apply_prefs-delete_after n p db h =
      (delete_after-apply_prefs d (record p { delete_after = some n }) db).0 ∙ ground (arith, h)

  apply_prefs-Reads :
      (choice : Choice) (account : Option NotificationPrefs) (db : Db d)
      → is_synced choice ≡ true
      → Reads choice (apply_prefs d (handle_account_settings_change (payload_of choice) account) db)
  unfolding handle_account_settings_change
  apply_prefs-Reads (sound s) none db h = apply_prefs-sound s no_prefs db h
  apply_prefs-Reads (sound s) (some p) db h = apply_prefs-sound s p db h
  apply_prefs-Reads (min_priority n) none db h = apply_prefs-min_priority n no_prefs db h
  apply_prefs-Reads (min_priority n) (some p) db h = apply_prefs-min_priority n p db h
  apply_prefs-Reads (delete_after n) none db h = apply_prefs-delete_after n no_prefs db h
  apply_prefs-Reads (delete_after n) (some p) db h = apply_prefs-delete_after n p db h
  apply_prefs-Reads other account db h = ground (arith, h)

  prefs-add :
      (base_url topic : String) (opts : Opts) (db : Db d)
      → (add d base_url topic opts db).0.prefs ≡ db.prefs
  unfolding add
  prefs-add base_url topic opts db = ground arith

  prefs-add_remotes :
      (config : Config) (reservations : Option (List Reservation))
      (remotes : List RemoteSubscription) (db : Db d)
      → (add_remotes d config reservations remotes db).0.prefs ≡ db.prefs
  unfolding add_remotes
  prefs-add_remotes config reservations [] db = refl
  prefs-add_remotes config reservations (remote ∷ remotes) db =
      prefs-add_remotes config reservations remotes _ ∙ prefs-add remote.base_url remote.topic _ db

  prefs-remove_missing :
      (ids : List String) (locals : List Subscription) (db : Db d)
      → (remove_missing d ids locals db).prefs ≡ db.prefs
  unfolding remove_missing remove
  prefs-remove_missing ids [] db = refl
  prefs-remove_missing ids (local ∷ locals) db =
      elim (Bool-cases (not local.internal && not (any (λ id. id === local.id) ids))) [
        | inl gone ↦
            rw (remove_missing, gone) (prefs-remove_missing ids locals (remove d local.id db))
        | inr kept ↦ rw (remove_missing, kept) (prefs-remove_missing ids locals db)
      ]

  prefs-sync_from_remote :
      (config : Config) (remotes : List RemoteSubscription)
      (reservations : Option (List Reservation)) (db : Db d)
      → (sync_from_remote d config remotes reservations db).prefs ≡ db.prefs
  unfolding sync_from_remote
  prefs-sync_from_remote config remotes reservations db =
      prefs-remove_missing (add_remotes d config reservations remotes db).1
        (d.subscriptions.to_array (add_remotes d config reservations remotes db).0.subscriptions)
        (add_remotes d config reservations remotes db).0
      ∙ prefs-add_remotes config reservations remotes db

  -- What is read depends on the preferences only.
  Reads-prefs : (choice : Choice) (a b : Db d) → b.prefs ≡ a.prefs → Reads choice a → Reads choice b
  unfolding Prefs.sound Prefs.min_priority Prefs.delete_after
  Reads-prefs (sound s) a b e h = rw e h
  Reads-prefs (min_priority n) a b e h = rw e h
  Reads-prefs (delete_after n) a b e h = rw e h
  Reads-prefs other a b e h = tt

  -- The account after the server has made the change that a request asks for.
  abbrev pub changed_account : Choice → Account → Account
  changed_account choice account = record account {
    notification = handle_account_settings_change (payload_of choice) account.notification;
  }

  apply_account-Reads :
      (config : Config) (choice : Choice) (account : Account) (db : Db d)
      → is_synced choice ≡ true
      → Reads choice (apply_account d config (changed_account choice account) db)
  unfolding apply_account
  apply_account-Reads config choice account db h = elim (Option-cases account.subscriptions) [
    | inl missing ↦ rw missing (apply_prefs-Reads choice account.notification db h)
    | inr (remotes, there) ↦
        let applied =
          apply_prefs d (handle_account_settings_change (payload_of choice) account.notification)
            db in
        rw there (
          Reads-prefs choice applied
            (sync_from_remote d config remotes account.reservations applied)
            (prefs-sync_from_remote config remotes account.reservations applied)
            (apply_prefs-Reads choice account.notification db h))
  ]

  sync-Reads :
      (config : Config) (session : Session) (choice : Choice) (account : Account) (db : Db d)
      → is_synced choice ≡ true
      → truthy session.token ≡ true
      → Reads choice (sync d config session (ok (changed_account choice account)) db).db
  unfolding sync
  sync-Reads config session choice account db h t =
      rw t (apply_account-Reads config choice account db h)

module _ (d : Dexie) (config : Config) (answer : Request → Option AppError) where
  maybe_update_done :
      (payload : Body) (c : Client d)
      → exists c.session ≡ true
      → ((r : Request) → answer r ≡ none)
      → maybe_update_account_settings d config answer payload c
        ≡ perform d (request (update_settings config c.session payload)) c
  unfolding maybe_update_account_settings
  maybe_update_done payload c signed_in answered =
      rw (signed_in, answered (update_settings config c.session payload)) refl

  -- If a signed-in user chooses a sound, a least priority other than 0 or a period other than 0, and the
  -- account answers without an error, then this device reads the choice at once, exactly one request is
  -- sent, and whatever the account had, once the server has made the change that the request asks for,
  -- a sync of any other device with a token, which gets the account, leaves it reading the choice.
  pub handle_change-Reads :
      (choice : Choice) (c : Client d) (account : Account) (other_session : Session) (other : Db d)
      → is_synced choice ≡ true
      → exists c.session ≡ true
      → truthy other_session.token ≡ true
      → ((r : Request) → answer r ≡ none)
      → let c' = handle_change d config answer choice c in
        Reads d choice c'.db
        × (c'.effects
            ≡ c.effects ++ request (update_settings config c.session (payload_of choice)) ∷ [])
        × Reads d choice
            (sync d config other_session (ok (changed_account d choice account)) other).db
  unfolding handle_change
  handle_change-Reads (sound s) c account os other h signed_in token answered =
      rw
        (maybe_update_done (payload_of (sound s)) (record c { db = Prefs.set_sound d s c.db })
          signed_in answered)
        (sound-set_sound d s c.db, refl, sync-Reads d config os (sound s) account other h token)
  handle_change-Reads (min_priority n) c account os other h signed_in token answered =
      rw
        (maybe_update_done (payload_of (min_priority n))
          (record c { db = Prefs.set_min_priority d n c.db }) signed_in answered)
        (
          (delete_after-set d n c.db).2,
          refl,
          sync-Reads d config os (min_priority n) account other h token,
        )
  handle_change-Reads (delete_after n) c account os other h signed_in token answered =
      rw
        (maybe_update_done (payload_of (delete_after n))
          (record c { db = Prefs.set_delete_after d n c.db }) signed_in answered)
        (
          (delete_after-set d n c.db).0,
          refl,
          sync-Reads d config os (delete_after n) account other h token,
        )
  handle_change-Reads other_choice c account os other h signed_in token answered = ground (arith, h)
