-- ===== src/Account/Sync/Preferences.antt =====
-- What the preferences read after the server's are applied.
use coop_messenger.Prelude.{
  ℕ, ◌≡◌, refl, String, Option, none, some, eqb, truthy, arith, if◌then◌else◌, ◌∙◌, ap,
}
use coop_messenger.Types.{PrefValue, text}
use coop_messenger.Db.{Dexie, Db}
use coop_messenger.Prefs.{
  set_sound, set_delete_after, set_min_priority, sound, delete_after, min_priority,
}
use coop_messenger.Prefs.Laws.{delete_after-set}
use coop_messenger.Prelude.Decimal.{to_string}
use coop_messenger.Account.Sync.{NotificationPrefs, set_number, set_text, apply_prefs}

-- The value that the server gives, unless it is missing or falsy.
abbrev pub number_or : Option ℕ → Option ℕ → Option ℕ
number_or none old = old
number_or (some n) old = if eqb n 0 then old else some n

abbrev pub text_or : Option String → PrefValue → PrefValue
text_or none old = old
text_or (some s) old = if truthy (some s) then text s else old

module _ (d : Dexie) where
  set_number-same :
      (set : ℕ → Db d → Db d) (read : Db d → Option ℕ)
      → ((n : ℕ) (db : Db d) → read (set n db) ≡ some n)
      → (o : Option ℕ) (db : Db d) → read (set_number d set o db) ≡ number_or o (read db)
  set_number-same set read h none db = refl
  set_number-same set read h (some n) db = ground (arith, h n db)

  set_number-other :
      {A : Type 0} (set : ℕ → Db d → Db d) (read : Db d → A)
      → ((n : ℕ) (db : Db d) → read (set n db) ≡ read db)
      → (o : Option ℕ) (db : Db d) → read (set_number d set o db) ≡ read db
  set_number-other set read h none db = refl
  set_number-other set read h (some n) db = ground (arith, h n db)

  set_text-same :
      (set : String → Db d → Db d) (read : Db d → PrefValue)
      → ((s : String) (db : Db d) → read (set s db) ≡ text s)
      → (o : Option String) (db : Db d) → read (set_text d set o db) ≡ text_or o (read db)
  set_text-same set read h none db = refl
  set_text-same set read h (some s) db = ground (arith, h s db)

  set_text-other :
      {A : Type 0} (set : String → Db d → Db d) (read : Db d → A)
      → ((s : String) (db : Db d) → read (set s db) ≡ read db)
      → (o : Option String) (db : Db d) → read (set_text d set o db) ≡ read db
  set_text-other set read h none db = refl
  set_text-other set read h (some s) db = ground (arith, h s db)

  pub sound-set_sound : (s : String) (db : Db d) → sound d (set_sound d s db) ≡ text s
  unfolding sound set_sound
  sound-set_sound s db =
      ground (arith, d.prefs.get-put "sound" (record { key = "sound"; value = text s }) db.prefs)

  delete_after-set_sound :
      (s : String) (db : Db d) → delete_after d (set_sound d s db) ≡ delete_after d db
  unfolding delete_after set_sound
  delete_after-set_sound s db =
      ground
        (arith, d.prefs.get-put "deleteAfter" (record { key = "sound"; value = text s }) db.prefs)

  min_priority-set_sound :
      (s : String) (db : Db d) → min_priority d (set_sound d s db) ≡ min_priority d db
  unfolding min_priority set_sound
  min_priority-set_sound s db =
      ground
        (arith, d.prefs.get-put "minPriority" (record { key = "sound"; value = text s }) db.prefs)

  sound-set_delete_after : (n : ℕ) (db : Db d) → sound d (set_delete_after d n db) ≡ sound d db
  unfolding sound set_delete_after
  sound-set_delete_after n db = ground (
    arith,
    d.prefs.get-put "sound" (record { key = "deleteAfter"; value = text (to_string n) }) db.prefs,
  )

  sound-set_min_priority : (n : ℕ) (db : Db d) → sound d (set_min_priority d n db) ≡ sound d db
  unfolding sound set_min_priority
  sound-set_min_priority n db = ground (
    arith,
    d.prefs.get-put "sound" (record { key = "minPriority"; value = text (to_string n) }) db.prefs,
  )

  -- Each of the three preferences reads the value that the server gives, and is left as it was when
  -- the server gives none; also when it gives the number 0 or the empty text, so a period of 0
  -- ("never delete") chosen on another device does not arrive.
  pub delete_after-apply_prefs :
      (p : NotificationPrefs) (db : Db d)
      → (delete_after d (apply_prefs d (some p) db) ≡ number_or p.delete_after (delete_after d db))
        × (min_priority d (apply_prefs d (some p) db)
            ≡ number_or p.min_priority (min_priority d db))
        × (sound d (apply_prefs d (some p) db) ≡ text_or p.sound (sound d db))
  unfolding apply_prefs
  delete_after-apply_prefs p db =
      let with_sound = set_text d (set_sound d) p.sound db in
      let with_period = set_number d (set_delete_after d) p.delete_after with_sound in
      (
        set_number-other (set_min_priority d) (delete_after d) (λ n x. (delete_after-set d n x).3)
              p.min_priority with_period
            ∙ set_number-same (set_delete_after d) (delete_after d)
                (λ n x. (delete_after-set d n x).0) p.delete_after with_sound
            ∙ ap (number_or p.delete_after)
                (set_text-other (set_sound d) (delete_after d) delete_after-set_sound p.sound db),
        set_number-same (set_min_priority d) (min_priority d) (λ n x. (delete_after-set d n x).2)
              p.min_priority with_period
            ∙ ap (number_or p.min_priority) (
                set_number-other (set_delete_after d) (min_priority d)
                  (λ n x. (delete_after-set d n x).1) p.delete_after with_sound
                ∙ set_text-other (set_sound d) (min_priority d) min_priority-set_sound p.sound db),
        set_number-other (set_min_priority d) (sound d) sound-set_min_priority p.min_priority
              with_period
            ∙ set_number-other (set_delete_after d) (sound d) sound-set_delete_after p.delete_after
                with_sound
            ∙ set_text-same (set_sound d) (sound d) sound-set_sound p.sound db,
      )
