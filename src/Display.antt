-- ===== src/Display.antt =====
-- web/src/app/notificationUtils.js: how a message is displayed as a notification of the browser. `emoji_of` is
-- what `emojisMapped` has under a tag, as text, if the tag is in it; `has_image_name` is the test of a
-- name or a URL against `/\.(png|jpe?g|gif|webp)$/i`.
pub mod Buttons
use text.Mathlib.Text.{starts_with}
use coop_messenger.Prelude.{
  ℕ, ◌*◌, String, Bool, true, false, ◌||◌, Option, none, some, List, [], ◌∷◌, map, filter, ◌===◌,
  truthy, or_else, if◌then◌else◌,
}
use coop_messenger.Events.{action_view, action_http}
use coop_messenger.Types.{Message, Action, Attachment}
use coop_messenger.Utils.Urls.{◌&◌}
use coop_messenger.Subscriptions.{sequence_of}
use coop_messenger.ServiceWorker.{notification_tag}

-- A button as the browser is given it.
pub record Button : Type 0 where
  pub action : String
  pub title : String

-- The arguments of `showNotification`, but for the constants.
pub record Params : Type 0 where
  pub title : String
  pub body : String
  pub image : Option String
  pub timestamp : ℕ
  pub tag : String
  pub subscription_id : String
  pub message : Message
  pub topic_route : String
  pub buttons : Option (List Button)

abbrev pub is_button : Action → Bool
is_button a = a.action === action_view || a.action === action_http

abbrev pub button_of : Action → Button
button_of a = record { action = a.label; title = a.label }

unfoldable pub buttons_of : Option (List Action) → Option (List Button)
buttons_of none = none
buttons_of (some actions) = some (map button_of (filter is_button actions))

module _ (emoji_of : String → Option String) where
  abbrev pub mapped : List String → List String
  mapped [] = []
  mapped (tag ∷ tags) =
      let rest = mapped tags in elim (emoji_of tag) [ none ↦ rest | some emoji ↦ emoji ∷ rest ]

  unfoldable pub to_emojis : Option (List String) → List String
  to_emojis none = []
  to_emojis (some tags) = mapped tags

  -- `emojiList.join(" ")`, and what comes behind it
  abbrev pub before : List String → String → String
  before [] text = text
  before (e ∷ []) text = e & " " & text
  before (e ∷ f ∷ es) text = e & " " & before (f ∷ es) text

  unfoldable pub format_title_with_default : Message → String → String
  unfolding to_emojis
  format_title_with_default m fallback =
      if truthy m.title then before (to_emojis m.tags) (or_else m.title "") else fallback

  unfoldable pub format_message : Message → String
  unfolding to_emojis
  format_message m =
      if truthy m.title
      then or_else m.message ""
      else before (to_emojis m.tags) (or_else m.message "")

module _ (has_image_name : String → Bool) where
  abbrev pub named_image : Option String → Bool
  named_image none = false
  named_image (some name) = has_image_name name

  unfoldable pub is_image : Option Attachment → Bool
  is_image none = false
  is_image (some attachment) =
      if truthy attachment.type
      then starts_with (or_else attachment.type "") "image/"
      else named_image attachment.name || named_image attachment.url

abbrev pub url_of : Option Attachment → Option String
url_of none = none
url_of (some attachment) = attachment.url

module _ (emoji_of : String → Option String) (has_image_name : String → Bool) where
  unfoldable pub to_notification_params : Message → String → String → String → String → Params
  unfolding is_image format_title_with_default format_message buttons_of notification_tag
  to_notification_params message default_title topic_route base_url topic = record {
    title = format_title_with_default emoji_of message default_title;
    body = format_message emoji_of message;
    image = if is_image has_image_name message.attachment then url_of message.attachment else none;
    timestamp = message.time * 1000;
    tag = notification_tag base_url topic (or_else message.sequence_id message.id);
    subscription_id = base_url & "/" & topic;
    message = message;
    topic_route = topic_route;
    buttons = buttons_of message.actions;
  }
