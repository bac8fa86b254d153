-- ===== src/Settings/Servers.antt =====
-- The users of other servers: what the dialog adds.
use coop_messenger.Prelude.{
  ◌≡◌, refl, ◌∙◌, String, Bool, true, false, not, ◌&&◌, Option, none, some, List, [], ◌∷◌, find,
  ◌===◌, arith, eq_iff, eq_refl, Bool-cases, Option-cases, inl, inr, if◌then◌else◌,
}
use coop_messenger.Types.{Config, User, Session}
use coop_messenger.Db.{Dexie, Db}
use coop_messenger.Users.{exists, all, local_user}
use coop_messenger.Users as Users
use coop_messenger.Users.Local.{get-save-delete}
use coop_messenger.Joining.{Client}
use coop_messenger.Settings.{UserDialog, base_url_exists, add_button_enabled, handle_dialog_submit}

abbrev pub typed_user : UserDialog → User
typed_user g = record {
  base_url = g.base_url;
  username = g.username;
  password = some g.password;
  token = none;
}

find-absent :
    (base_url : String) (users : List User)
    → base_url_exists users base_url ≡ false
    → find (λ (u : User). u.base_url === base_url) users ≡ none
find-absent base_url [] h = refl
find-absent base_url (u ∷ users) h =
    ground
      (arith, h, eq_iff u.base_url base_url, eq_iff base_url u.base_url, find-absent base_url users)

module _ (d : Dexie) (config : Config) (session : Session) where
  all_signed_in :
      (db : Db d)
      → exists session ≡ true
      → base_url_exists (all d config session db) config.base_url ≡ true
  unfolding all local_user
  all_signed_in db h = elim (Option-cases session.username) [
    | inl missing ↦ absurd (ground (arith, missing, h))
    | inr (name, there) ↦ ground (arith, there, h, eq_refl config.base_url)
  ]

  all_signed_out :
      (db : Db d) → exists session ≡ false → all d config session db ≡ d.users.to_array db.users
  unfolding all
  all_signed_out db h = rw h refl

  rows_absent :
      (base_url : String) (db : Db d)
      → base_url_exists (all d config session db) base_url ≡ false
      → base_url_exists (d.users.to_array db.users) base_url ≡ false
  unfolding all local_user
  rows_absent base_url db h = elim (Option-cases session.username) [
    | inl missing ↦ ground (arith, missing, h)
    | inr (name, there) ↦ ground (arith, there, h)
  ]

  not_local :
      (base_url : String) (db : Db d)
      → base_url_exists (all d config session db) base_url ≡ false
      → exists session && (base_url === config.base_url) ≡ false
  not_local base_url db h = elim (Bool-cases (exists session)) [
    | inr out ↦ rw out refl
    | inl signed_in ↦ elim (Bool-cases (base_url === config.base_url)) [
      | inr other ↦ rw (signed_in, other) refl
      | inl same ↦ absurd (
          ground
            (arith, rw ((eq_iff base_url config.base_url).0 same) at h, all_signed_in db signed_in))
    ]
  ]

module _ (d : Dexie) (config : Config) where
  enabled-fresh :
      (g : UserDialog) (users : List User)
      → g.edited ≡ none
      → add_button_enabled users g ≡ true
      → base_url_exists users g.base_url ≡ false
  unfolding add_button_enabled
  enabled-fresh g users adding enabled = ground (arith, adding, enabled)

  get-fresh :
      (base_url : String) (c : Client d)
      → base_url_exists (all d config c.session c.db) base_url ≡ false
      → Users.get d config c.session base_url c.db ≡ none
  unfolding Users.get
  get-fresh base_url c h = rw (not_local d config c.session base_url c.db h) (
      d.users.get_find base_url c.db.users
      ∙ find-absent base_url (d.users.to_array c.db.users)
          (rows_absent d config c.session base_url c.db h))

  merge :
      (same local : Bool) (x y : Option User)
      → (same ≡ true → local ≡ false)
      → (if same && not local then x else y) ≡ (if same then x else y)
  merge true local x y h = rw (h refl) refl
  merge false local x y h = refl

  -- Where the button to add a user is enabled, there was no user for the server; after the dialog the one
  -- that was typed is read for it, with or without a session, and for every other server the same user
  -- as before.
  pub handle_dialog_submit-added :
      (g : UserDialog) (c : Client d) (other : String)
      → g.edited ≡ none
      → add_button_enabled (all d config c.session c.db) g ≡ true
      → (Users.get d config c.session g.base_url c.db ≡ none)
        × (Users.get d config c.session other (handle_dialog_submit d config g c).db ≡ (
            if g.base_url === other
            then some (typed_user g)
            else Users.get d config c.session other c.db))
  unfolding handle_dialog_submit
  handle_dialog_submit-added g c other adding enabled =
      let fresh = enabled-fresh g (all d config c.session c.db) adding enabled in
      let outside = not_local d config c.session g.base_url c.db fresh in
      (
        get-fresh g.base_url c fresh,
        (get-save-delete d config c.session (typed_user g) "" other c.db).0
            ∙ merge (g.base_url === other) (exists c.session && (other === config.base_url))
                (some (typed_user g)) (Users.get d config c.session other c.db)
                (λ same. rw ((eq_iff g.base_url other).0 same) at outside),
      )
