-- ===== src/Notifications.antt =====
-- web/src/components/Notifications.jsx: the buttons of a notification in a list.
pub mod Actions
use coop_messenger.Prelude.{
  ℕ, String, Bool, true, false, ◌&&◌, Option, none, some, List, [], ◌∷◌, map, ◌===◌, leb, eqb,
  if◌then◌else◌,
}
use coop_messenger.Prelude.Decimal.{to_string}
use mathlib.Core.Option
use coop_messenger.Types.{Message, Action, Subscription}
use coop_messenger.Events.{action_view, action_http, action_copy}
use coop_messenger.Db.{Dexie, Db}
use coop_messenger.Subscriptions.{get}
use coop_messenger.Subscriptions.Stored.{update_notification, mark_notification_read}
use coop_messenger.Utils.Urls.{◌&◌}

abbrev pub progress_ongoing : ℕ
progress_ongoing = 1

abbrev pub progress_success : ℕ
progress_success = 2

abbrev pub progress_failed : ℕ
progress_failed = 3

-- `ACTION_LABEL_SUFFIX[action.progress ?? 0] ?? ""`
abbrev pub label_suffix : Option ℕ → String
label_suffix none = ""
label_suffix (some n) =
    if eqb n progress_ongoing
    then " …"
    else if eqb n progress_success
    then " ✔"
    else if eqb n progress_failed
    then " ❌"
    else ""

-- What the browser is asked to do.
pub data ActionEffect : Type 0 where
  fetch : String → String → List (String × String) → Option String → ActionEffect
  cancel : Subscription → Message → ActionEffect
  open_url : String → ActionEffect
  copy_to_clipboard : Option String → ActionEffect
  show_snack : ActionEffect

-- How a request ends: with the status of a response, or with an error of the given text.
pub data Outcome : Type 0 where
  responded : ℕ → Outcome
  failed : String → Outcome

-- The buttons are made of the list of actions, so there is one.
unfoldable pub with_status : Action → ℕ → Option String → Message → Message
with_status action progress error notification = record notification {
  actions =
      Option.map
        (map (λ (a : Action).
          if a.id === action.id then record a { progress = some progress; error = error } else a))
        notification.actions;
}

abbrev pub or_else_post : Option String → String
or_else_post none = "POST"
or_else_post (some method) = method

abbrev pub or_else_empty : Option (List (String × String)) → List (String × String)
or_else_empty none = []
or_else_empty (some headers) = headers

abbrev pub is_success : ℕ → Bool
is_success status = leb 200 status && leb status 299

module _ (d : Dexie) where
  unfoldable pub update_action_status : Message → Action → ℕ → Option String → Db d → Db d
  unfolding update_notification with_status
  update_action_status notification action progress error db =
      (update_notification d (with_status action progress error notification) db).0

  -- A stored notification always has a subscription id.
  abbrev pub subscription_of : Option String → Db d → Option Subscription
  subscription_of none db = none
  subscription_of (some id) db = get d id db

  unfoldable pub clear_notification : Message → Db d → Db d × List ActionEffect
  unfolding mark_notification_read
  clear_notification notification db = (
    mark_notification_read d notification.id db,
    elim (subscription_of notification.subscription_id db) [
      | none ↦ []
      | some subscription ↦ cancel subscription notification ∷ []
    ],
  )

  -- `performHttpAction` up to where it waits for the response.
  unfoldable pub start_http_action : Message → Action → Db d → Db d × List ActionEffect
  unfolding update_action_status
  start_http_action notification action db = (
    update_action_status notification action progress_ongoing none db,
    fetch action.url (or_else_post action.method) (or_else_empty action.headers) action.body ∷ [],
  )

  -- `performHttpAction` from there, on the database of that time.
  unfoldable pub finish_http_action : Message → Action → Outcome → Db d → Db d × List ActionEffect
  unfolding update_action_status clear_notification
  finish_http_action notification action (responded status) db =
      if is_success status
      then (let settled = update_action_status notification action progress_success none db in
          if action.clear then clear_notification notification settled else (settled, []))
      else (
        update_action_status notification action progress_failed
            (some (action.label & ": Unexpected response HTTP " & to_string status)) db,
        [],
      )
  finish_http_action notification action (failed e) db = (
    update_action_status notification action progress_failed
        (some (action.label & ": " & e & " Check developer console for details.")) db,
    [],
  )

  -- A click on a button of another kind than "http"; a broadcast cannot be clicked.
  unfoldable pub handle_click : Message → Action → Db d → Db d × List ActionEffect
  unfolding clear_notification
  handle_click notification action db =
      let cleared = clear_notification notification db in
      if action.action === action_view
      then (if action.clear
          then (cleared.0, open_url action.url ∷ cleared.1)
          else (db, open_url action.url ∷ []))
      else if action.action === action_copy
      then (if action.clear
          then (cleared.0, copy_to_clipboard action.value ∷ show_snack ∷ cleared.1)
          else (db, copy_to_clipboard action.value ∷ show_snack ∷ []))
      else (db, [])
