-- ===== src/Prefs.antt =====
-- web/src/app/Prefs.js: the preferences, rows of the table `prefs`. A setter writes the row of its
-- key; a getter falls back to a default. `none` from a number's getter is NaN.
pub mod Laws
use coop_messenger.Prelude.{ℕ, String, Bool, true, false, Option, none, some}
use coop_messenger.Prelude.Decimal.{number, to_string}
use coop_messenger.Types.{Pref, PrefValue, text, flag}
use coop_messenger.Db.{Dexie, Db}

-- `Number(value)`; a Boolean is 0 or 1.
unfoldable pub to_number : PrefValue → Option ℕ
to_number (text s) = number s
to_number (flag b) = elim b [ true ↦ some 1 | false ↦ some 0 ]

module _ (d : Dexie) where
  -- `this.db.prefs.put({ key, value })`
  unfoldable pub put_pref : String → PrefValue → Db d → Db d
  put_pref key value db = record db {
    prefs = d.prefs.put (record { key = key; value = value }) db.prefs;
  }

  unfoldable pub set_sound : String → Db d → Db d
  unfolding put_pref
  set_sound sound = put_pref "sound" (text sound)

  unfoldable pub sound : Db d → PrefValue
  sound db = elim (d.prefs.get "sound" db.prefs) [ none ↦ text "ding" | some p ↦ p.value ]

  unfoldable pub set_min_priority : ℕ → Db d → Db d
  unfolding put_pref
  set_min_priority n = put_pref "minPriority" (text (to_string n))

  unfoldable pub min_priority : Db d → Option ℕ
  unfolding to_number
  min_priority db = elim (d.prefs.get "minPriority" db.prefs) [
    | none ↦ some 1
    | some p ↦ to_number p.value
  ]

  unfoldable pub set_delete_after : ℕ → Db d → Db d
  unfolding put_pref
  set_delete_after n = put_pref "deleteAfter" (text (to_string n))

  -- The default is one week.
  unfoldable pub delete_after : Db d → Option ℕ
  unfolding to_number
  delete_after db = elim (d.prefs.get "deleteAfter" db.prefs) [
    | none ↦ some 604800
    | some p ↦ to_number p.value
  ]

  unfoldable pub set_web_push_enabled : Bool → Db d → Db d
  unfolding put_pref
  set_web_push_enabled enabled = put_pref "webPushEnabled" (flag enabled)

  unfoldable pub web_push_enabled : Db d → Option PrefValue
  web_push_enabled db = elim (d.prefs.get "webPushEnabled" db.prefs) [
    | none ↦ none
    | some p ↦ some p.value
  ]

  unfoldable pub set_theme : String → Db d → Db d
  unfolding put_pref
  set_theme mode = put_pref "theme" (text mode)

  unfoldable pub theme : Db d → PrefValue
  theme db = elim (d.prefs.get "theme" db.prefs) [ none ↦ text "light" | some p ↦ p.value ]

  unfoldable pub set_accent_color : String → Db d → Db d
  unfolding put_pref
  set_accent_color color = put_pref "accentColor" (text color)

  unfoldable pub accent_color : Db d → PrefValue
  accent_color db = elim (d.prefs.get "accentColor" db.prefs) [
    | none ↦ text "earth"
    | some p ↦ p.value
  ]

  unfoldable pub set_custom_accent_color : String → Db d → Db d
  unfolding put_pref
  set_custom_accent_color hex = put_pref "customAccentColor" (text hex)

  unfoldable pub custom_accent_color : Db d → PrefValue
  custom_accent_color db = elim (d.prefs.get "customAccentColor" db.prefs) [
    | none ↦ text "#C4A265"
    | some p ↦ p.value
  ]
