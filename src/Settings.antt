-- ===== src/Settings.antt =====
-- web/src/components/Preferences.jsx: the handlers of the page of settings, and the dialog of a user of
-- another server; with what the server does with a change, handleAccountSettingsChange of
-- server/server_account.go. `answer` is what it answers, as in `Joining`.
pub mod Shared
pub mod Servers
use Prim.Native.Char.{Char, code}
use Prim.Native.String
use text.Mathlib.Text.{starts_with}
use coop_messenger.Prelude.{
  ℕ, String, Bool, true, false, not, ◌&&◌, ◌||◌, Option, none, some, List, [], ◌∷◌, map, includes,
  ◌===◌, eqb, or_else, if◌then◌else◌,
}
use coop_messenger.Types.{Config, User}
use coop_messenger.Db.{Dexie, Db}
use coop_messenger.Errors.{AppError}
use coop_messenger.Prefs.{
  set_sound, set_min_priority, set_delete_after, set_theme, set_web_push_enabled, set_accent_color,
  set_custom_accent_color,
}
use coop_messenger.Users.{exists, save, delete}
use coop_messenger.Account.{Request, Body, Json, str, num, object}
use coop_messenger.Account.Requests.{update_settings}
use coop_messenger.Account.Sync.{NotificationPrefs}
use coop_messenger.Commands.{is_empty}
use coop_messenger.Joining.{Client, request, settle, perform}

-- What the user sets.
pub data Choice : Type 0 where
  sound : String → Choice
  min_priority : ℕ → Choice
  delete_after : ℕ → Choice
  theme : String → Choice
  web_push_enabled : Bool → Choice
  -- one of the colours offered, or one of the user's own
  accent_color : String → Choice
  custom_color : String → Choice
  language : String → Choice

module _ (d : Dexie) (config : Config) (answer : Request → Option AppError) where
  unfoldable pub maybe_update_account_settings : Body → Client d → Client d
  unfolding update_settings
  maybe_update_account_settings payload c =
      let updating = update_settings config c.session payload in
      if exists c.session then settle d (answer updating) (perform d (request updating) c) else c

  abbrev pub local : Db d → Client d → Client d
  local db c = record c { db = db }

  abbrev pub notification : String → Json → Body
  notification key value = ("notification", object key value) ∷ []

  -- `handleChange` of each setting.
  unfoldable pub change_sound : String → Client d → Client d
  unfolding maybe_update_account_settings
  change_sound s c =
      maybe_update_account_settings (notification "sound" (str s)) (local (set_sound d s c.db) c)

  unfoldable pub change_min_priority : ℕ → Client d → Client d
  unfolding maybe_update_account_settings
  change_min_priority n c =
      maybe_update_account_settings (notification "min_priority" (num n))
        (local (set_min_priority d n c.db) c)

  unfoldable pub change_delete_after : ℕ → Client d → Client d
  unfolding maybe_update_account_settings
  change_delete_after n c =
      maybe_update_account_settings (notification "delete_after" (num n))
        (local (set_delete_after d n c.db) c)

  unfoldable pub change_theme : String → Client d → Client d
  change_theme mode c = local (set_theme d mode c.db) c

  unfoldable pub change_web_push_enabled : Bool → Client d → Client d
  change_web_push_enabled b c = local (set_web_push_enabled d b c.db) c

  -- `handlePresetClick` and `handleCustomChange`
  unfoldable pub handle_preset_click : String → Client d → Client d
  handle_preset_click key c = local (set_accent_color d key c.db) c

  unfoldable pub handle_custom_change : String → Client d → Client d
  handle_custom_change hex c =
      local (set_accent_color d "custom" (set_custom_accent_color d hex c.db)) c

  -- The language itself is changed by i18next.
  unfoldable pub change_language : String → Client d → Client d
  unfolding maybe_update_account_settings
  change_language l c = maybe_update_account_settings (("language", str l) ∷ []) c

  unfoldable pub handle_change : Choice → Client d → Client d
  unfolding change_sound change_min_priority change_delete_after change_theme
      change_web_push_enabled handle_preset_click handle_custom_change change_language
  handle_change (sound s) c = change_sound s c
  handle_change (min_priority n) c = change_min_priority n c
  handle_change (delete_after n) c = change_delete_after n c
  handle_change (theme mode) c = change_theme mode c
  handle_change (web_push_enabled b) c = change_web_push_enabled b c
  handle_change (accent_color key) c = handle_preset_click key c
  handle_change (custom_color hex) c = handle_custom_change hex c
  handle_change (language l) c = change_language l c

-- `handleAccountSettingsChange`: what the body of a request changes of the account's settings.
unfoldable pub change_notification : String → Json → NotificationPrefs → NotificationPrefs
change_notification key (str s) p = if key === "sound" then record p { sound = some s } else p
change_notification key (num n) p =
    if key === "delete_after"
    then record p { delete_after = some n }
    else if key === "min_priority"
    then record p { min_priority = some n }
    else p
change_notification key other p = p

abbrev pub no_prefs : NotificationPrefs
no_prefs = record { sound = none; delete_after = none; min_priority = none }

unfoldable pub handle_account_settings_change :
    Body → Option NotificationPrefs → Option NotificationPrefs
unfolding change_notification
handle_account_settings_change [] p = p
handle_account_settings_change ((name, object key value) ∷ rest) p =
    let rest_changed = handle_account_settings_change rest in
    if name === "notification"
    then (elim p [
      | none ↦ rest_changed (some (change_notification key value no_prefs))
      | some prefs ↦ rest_changed (some (change_notification key value prefs))
    ])
    else rest_changed p
handle_account_settings_change ((name, value) ∷ rest) p = handle_account_settings_change rest p

-- What `.` of a regular expression does not match.
abbrev pub is_line_end : Char → Bool
is_line_end c = eqb (code c) 10 || (eqb (code c) 13 || (eqb (code c) 8232 || eqb (code c) 8233))

abbrev pub starts_line : String → Bool
starts_line String.[] = false
starts_line (String.◌∷◌ c s) = not (is_line_end c)

-- What is left behind a text at the start.
abbrev pub after : String → String → Option String
after String.[] s = some s
after (String.◌∷◌ c p) String.[] = none
after (String.◌∷◌ c p) (String.◌∷◌ x s) = if eqb (code c) (code x) then after p s else none

abbrev pub has_line_after : String → String → Bool
has_line_after prefix url = elim (after prefix url) [ none ↦ false | some rest ↦ starts_line rest ]

-- `url.match(/^https?:\/\/.+/)`
unfoldable pub valid_url : String → Bool
valid_url url = has_line_after "https://" url || has_line_after "http://" url

-- The fields of the dialog of a user, and the user that is edited, if one is.
pub record UserDialog : Type 0 where
  pub edited : Option User
  pub base_url : String
  pub username : String
  pub password : String

-- The effect that fills in the fields when a user is edited.
unfoldable pub open_dialog : Option User → UserDialog
open_dialog none = record { edited = none; base_url = ""; username = ""; password = "" }
open_dialog (some u) = record {
  edited = some u;
  base_url = u.base_url;
  username = u.username;
  password = or_else u.password "";
}

abbrev pub base_url_exists : List User → String → Bool
base_url_exists users base_url = includes base_url (map (λ (u : User). u.base_url) users)

abbrev pub is_filled : UserDialog → Bool
is_filled g = not (is_empty g.username) && not (is_empty g.password)

unfoldable pub add_button_enabled : List User → UserDialog → Bool
unfolding valid_url
add_button_enabled users g = elim g.edited [
  | some u ↦ is_filled g
  | none ↦ valid_url g.base_url && (not (base_url_exists users g.base_url) && is_filled g)
]

-- The key of the text below the field of the server.
unfoldable pub base_url_helper_text : List User → UserDialog → String
unfolding valid_url
base_url_helper_text users g =
    if not (is_empty g.base_url) && not (is_empty g.base_url || valid_url g.base_url)
    then "prefs_users_dialog_base_url_invalid"
    else if base_url_exists users g.base_url
    then "prefs_users_dialog_base_url_exists"
    else ""

module _ (d : Dexie) (config : Config) where
  unfoldable pub handle_dialog_submit : UserDialog → Client d → Client d
  unfolding save
  handle_dialog_submit g c = record c {
    db =
        save d config c.session
          (record {
            base_url = g.base_url;
            username = g.username;
            password = some g.password;
            token = none;
          })
          c.db;
  }

  unfoldable pub handle_delete_click : User → Client d → Client d
  unfolding delete
  handle_delete_click user c = record c { db = delete d config c.session user.base_url c.db }
