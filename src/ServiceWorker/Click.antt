-- ===== src/ServiceWorker/Click.antt =====
-- web/public/sw.js: handleClick, a click on a displayed notification or on one of its buttons.
pub mod Windows
use coop_messenger.Prelude.{
  ℕ, String, not, ◌&&◌, Option, none, some, List, [], ◌∷◌, ◌++◌, find, ◌===◌, truthy, or_else,
  if◌then◌else◌,
}
use coop_messenger.Events.{action_view, action_http}
use coop_messenger.Types.{Message, Action}
use coop_messenger.Db.{Dexie, Db}
use coop_messenger.Errors.{AppError, type_error}
use coop_messenger.Subscriptions.{sequence_of}
use coop_messenger.Subscriptions.Stored.{mark_notification_read_by_sequence_id}
use coop_messenger.ServiceWorker.{badge_count}

-- An open window of the app.
pub record Client : Type 0 where
  pub id : String
  pub url : String

-- What `toNotificationParams` attaches to a notification, its `data`.
pub record ClickData : Type 0 where
  pub subscription_id : String
  pub message : Message
  pub topic_route : String

-- The label of the button, or "", and the `data`; `none` where the notification is of no message.
pub record ClickEvent : Type 0 where
  pub action : String
  pub content : Option ClickData

pub data ClickEffect : Type 0 where
  focus : Client → ClickEffect
  navigate : Client → String → ClickEffect
  open_window : String → ClickEffect
  close_clicked : ClickEffect
  set_badge : ℕ → ClickEffect
  perform_http : Action → ClickEffect
  show_action_failed : Action → String → ClickEffect

pub record ClickOutcome (d : Dexie) : Type 0 where
  pub db : Db d
  pub effects : List ClickEffect
  pub thrown : Option AppError

-- The window on the root route, else the first window, sent there, else a new one.
unfoldable pub show_root : String → List Client → List ClickEffect
show_root root clients = elim (find (λ c. c.url === root) clients) [
  | some c ↦ focus c ∷ []
  | none ↦ elim clients [ [] ↦ open_window root ∷ [] | c ∷ cs ↦ focus c ∷ navigate c root ∷ [] ]
]

-- The window on the topic's route, else the one on the root route or the first, sent there, else a
-- new one.
unfoldable pub show_topic : String → String → List Client → List ClickEffect
show_topic route root clients = elim (find (λ c. c.url === route) clients) [
  | some c ↦ focus c ∷ []
  | none ↦ elim (find (λ c. c.url === root) clients) [
    | some c ↦ focus c ∷ navigate c route ∷ []
    | none ↦ elim clients [ [] ↦ open_window route ∷ [] | c ∷ cs ↦ focus c ∷ navigate c route ∷ [] ]
  ]
]

-- `actions.find(({ label }) => event.action === label)`
abbrev pub action_of : String → Message → Option Action
action_of label m = elim m.actions [
  | none ↦ none
  | some actions ↦ find (λ a. label === a.label) actions
]

module _ (d : Dexie) where
  abbrev pub clicked : Db d → List ClickEffect → ClickOutcome d
  clicked db effects = record { db = db; effects = effects; thrown = none }

  -- `clearNotification`, after other effects.
  unfoldable pub clear_notification : ClickData → List ClickEffect → Db d → ClickOutcome d
  clear_notification content before db =
      if not (content.subscription_id === "") && not (sequence_of content.message === "")
      then (let db' =
            mark_notification_read_by_sequence_id d content.subscription_id
              (sequence_of content.message) db in
          clicked db' (before ++ close_clicked ∷ set_badge (badge_count d db') ∷ []))
      else clicked db (before ++ close_clicked ∷ [])

  -- A button: `failure` is the message of the error that the request ends in, if any.
  unfoldable pub handle_action : ClickData → Action → Option String → Db d → ClickOutcome d
  unfolding clear_notification
  handle_action content a failure db =
      if a.action === action_view
      then (if a.clear
          then clear_notification content (open_window a.url ∷ []) db
          else clicked db (open_window a.url ∷ []))
      else if a.action === action_http
      then elim failure [
        | some text ↦ clicked db (perform_http a ∷ show_action_failed a text ∷ [])
        | none ↦
            if a.clear
            then clear_notification content (perform_http a ∷ []) db
            else clicked db (perform_http a ∷ [])
      ]
      else clicked db []

  -- `root` is the URL of the root route. A label without an action is a TypeError.
  unfoldable pub handle_click :
      String → List Client → Option String → ClickEvent → Db d → ClickOutcome d
  unfolding show_root show_topic handle_action
  handle_click root clients failure event db = elim event.content [
    | none ↦ clicked db (show_root root clients ++ close_clicked ∷ [])
    | some content ↦
        if not (event.action === "")
        then (elim (action_of event.action content.message) [
          | none ↦ record { db = db; effects = []; thrown = some type_error }
          | some a ↦ handle_action content a failure db
        ])
        else if truthy content.message.click
        then clicked db (open_window (or_else content.message.click "") ∷ close_clicked ∷ [])
        else clicked db (show_topic content.topic_route root clients ++ close_clicked ∷ [])
  ]
