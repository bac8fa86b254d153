-- ===== src/Notifications/Actions.antt =====
-- What a button that sends a request leaves in the database.
use mathlib.Core.Option
use coop_messenger.Prelude.{
  ℕ, String, ◌≡◌, refl, ap, sym, ◌∙◌, Bool, true, false, ◌&&◌, Option, none, some, map, ◌===◌,
  if◌then◌else◌, arith, eq_iff, eq_refl, Bool-cases, Option-cases, inl, inr,
}
use coop_messenger.Types.{Message, Action}
use coop_messenger.Db.{Dexie, Db}
use coop_messenger.Table.Laws.{get-key, get-modify_where}
use coop_messenger.Prelude.Decimal.{to_string}
use coop_messenger.Utils.Urls.{◌&◌}
use coop_messenger.Subscriptions.{mark_read}
use coop_messenger.Subscriptions.Stored.{mark_matching, update_notification, mark_notification_read}
use coop_messenger.Notifications.{
  progress_success, progress_failed, Outcome, responded, failed, with_status, is_success,
  update_action_status, clear_notification, finish_http_action,
}

-- The status that the outcome of a request gives its button, and the text of the error.
abbrev pub progress_of : Outcome → ℕ
progress_of (responded status) = if is_success status then progress_success else progress_failed
progress_of (failed e) = progress_failed

abbrev pub error_of : Action → Outcome → Option String
error_of a (responded status) =
    if is_success status
    then none
    else some (a.label & ": Unexpected response HTTP " & to_string status)
error_of a (failed e) = some (a.label & ": " & e & " Check developer console for details.")

abbrev pub succeeded : Outcome → Bool
succeeded (responded status) = is_success status
succeeded (failed e) = false

-- A button of the notification: the one that was clicked has the status.
abbrev pub button_after : Action → ℕ → Option String → Action → Action
button_after a progress error b =
    if b.id === a.id then record b { progress = some progress; error = error } else b

abbrev pub settled_with : Message → Action → ℕ → Option String → Option ℕ → Message
settled_with n a progress error new = record n {
  actions = Option.map (map (button_after a progress error)) n.actions;
  new = new;
}

-- The notification as it was when the button was rendered, with the status on the buttons of that id,
-- and read if the request succeeded and the button clears.
abbrev pub settled : Message → Action → Outcome → Message
settled n a outcome =
    settled_with n a (progress_of outcome) (error_of a outcome)
      (if succeeded outcome && a.clear then some 0 else n.new)

settled-eq :
    (n : Message) (a : Action) (outcome : Outcome) (progress : ℕ) (error : Option String)
    (new : Option ℕ)
    → progress_of outcome ≡ progress
    → error_of a outcome ≡ error
    → (if succeeded outcome && a.clear then some 0 else n.new) ≡ new
    → settled n a outcome ≡ settled_with n a progress error new
settled-eq n a outcome progress error new p e w =
    ap
      (λ x.
        settled_with n a x (error_of a outcome)
          (if succeeded outcome && a.clear then some 0 else n.new))
      p
    ∙ ap (λ x. settled_with n a progress x (if succeeded outcome && a.clear then some 0 else n.new))
        e
    ∙ ap (settled_with n a progress error) w

abbrev pub stored_as : Message → Option Message → Option Message
stored_as m none = none
stored_as m (some old) = some m

map-mark_read :
    (m : Message) (id k : String) (o : Option Message)
    → m.id ≡ id
    → ((x : Message) → o ≡ some x → x.id ≡ k)
    → Option.map
        (λ (x : Message). if x.id === id then mark_read x else x)
        (if id === k then stored_as m o else o)
      ≡ (if id === k then stored_as (mark_read m) o else o)
map-mark_read m id k none e h = ground arith
map-mark_read m id k (some x) e h =
    ground (arith, h x refl, e, eq_iff id k, eq_iff m.id id, eq_iff x.id id)

module _ (d : Dexie) where
  get-update_notification :
      (k : String) (m : Message) (db : Db d)
      → d.notifications.get k (update_notification d m db).0.notifications ≡ (
          if m.id === k
          then stored_as m (d.notifications.get k db.notifications)
          else d.notifications.get k db.notifications)
  unfolding update_notification
  get-update_notification k m db = elim (Option-cases (d.notifications.get m.id db.notifications)) [
    | inl gone ↦ rw (update_notification, gone) (ground (arith, gone, eq_iff m.id k))
    | inr (old, there) ↦
        rw (update_notification, there, d.notifications.get-put k m db.notifications)
          (ground (arith, there, eq_iff m.id k))
  ]

  get-mark_notification_read :
      (k id : String) (db : Db d)
      → d.notifications.get k (mark_notification_read d id db).notifications
        ≡ Option.map
            (λ (m : Message). if m.id === id then mark_read m else m)
            (d.notifications.get k db.notifications)
  unfolding mark_notification_read mark_matching
  get-mark_notification_read k id db =
      get-modify_where d.notifications k (λ m. m.id === id) mark_read db.notifications (λ r. refl)

  get-update_action_status :
      (k : String) (n : Message) (a : Action) (progress : ℕ) (error : Option String) (db : Db d)
      → d.notifications.get k (update_action_status d n a progress error db).notifications ≡ (
          if n.id === k
          then stored_as (with_status a progress error n) (d.notifications.get k db.notifications)
          else d.notifications.get k db.notifications)
  unfolding update_action_status with_status
  get-update_action_status k n a progress error db =
      get-update_notification k (with_status a progress error n) db

  -- Whatever happened to the database while the request was on its way: when it ends, the notification
  -- is stored as the button saw it, with the status and the error of the outcome on the buttons of its
  -- id and no other one, and read if the request succeeded and the button clears, unless it was
  -- deleted; every other one stays as it is.
  pub finish_http_action-settled :
      (n : Message) (a : Action) (outcome : Outcome) (db : Db d) (k : String)
      → d.notifications.get k (finish_http_action d n a outcome db).0.notifications ≡ (
          if n.id === k
          then stored_as (settled n a outcome) (d.notifications.get k db.notifications)
          else d.notifications.get k db.notifications)
  unfolding finish_http_action clear_notification with_status
  finish_http_action-settled n a (failed e) db k =
      get-update_action_status k n a progress_failed (error_of a (failed e)) db
  finish_http_action-settled n a (responded status) db k =
      let old = d.notifications.get k db.notifications in
      let stored_there = λ (m : Message). if n.id === k then stored_as m old else old in
      elim (Bool-cases (is_success status)) [
        | inl success ↦ elim (Bool-cases a.clear) [
          | inl clears ↦
              let same =
                settled-eq n a (responded status) progress_success none (some 0) (rw success refl)
                  (rw success refl) (rw (success, clears) refl) in
              rw (finish_http_action, success, clears)
                (get-mark_notification_read k n.id
                    (update_action_status d n a progress_success none db)
                  ∙ ap (Option.map (λ (m : Message). if m.id === n.id then mark_read m else m))
                      (get-update_action_status k n a progress_success none db)
                  ∙ map-mark_read (with_status a progress_success none n) n.id k old refl
                      (get-key d.notifications k db.notifications))
              ∙ ap stored_there (sym same)
          | inr stays ↦
              let same =
                settled-eq n a (responded status) progress_success none n.new (rw success refl)
                  (rw success refl) (rw (success, stays) refl) in
              rw (finish_http_action, success, stays)
                (get-update_action_status k n a progress_success none db)
              ∙ ap stored_there (sym same)
        ]
        | inr failure ↦
            let text = some (a.label & ": Unexpected response HTTP " & to_string status) in
            let same =
              settled-eq n a (responded status) progress_failed text n.new (rw failure refl)
                (rw failure refl) (rw failure refl) in
            rw (finish_http_action, failure)
              (get-update_action_status k n a progress_failed text db)
            ∙ ap stored_there (sym same)
      ]

  settled_new :
      (n : Message) (a : Action) (outcome : Outcome)
      → succeeded outcome && a.clear ≡ false
      → (settled n a outcome).new ≡ n.new
  unfolding with_status
  settled_new n a outcome h = elim (Bool-cases (succeeded outcome)) [
    | inl success ↦ rw (success, stays success) refl
    | inr failure ↦ rw failure refl
  ]
    where
      stays : succeeded outcome ≡ true → a.clear ≡ false
      stays success = ground (arith, success, h)

  -- A stored notification that is marked as read while the request of one of its buttons is on its
  -- way is, when the request ends, as unread as it was when the button was rendered, unless the
  -- request succeeded and the button clears.
  finish_http_action_unread :
      (n : Message) (a : Action) (outcome : Outcome) (old : Message) (db : Db d)
      → d.notifications.get n.id db.notifications ≡ some old
      → succeeded outcome && a.clear ≡ false
      → Option.map
          (λ m. m.new)
          (d.notifications.get n.id
            (finish_http_action d n a outcome (mark_notification_read d n.id db)).0.notifications)
        ≡ some n.new
  unfolding with_status
  finish_http_action_unread n a outcome old db stored h =
      rw
        (
          finish_http_action-settled n a outcome (mark_notification_read d n.id db) n.id,
          get-mark_notification_read n.id n.id db,
          stored,
          eq_refl n.id,
        )
        (ap some (settled_new n a outcome h))
