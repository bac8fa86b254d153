-- ===== src/Events.antt =====
-- web/src/app/events.js and web/src/app/actions.js: the event and action names of the protocol.
use coop_messenger.Prelude.{String, Bool, ◌||◌, ◌===◌}

abbrev pub event_open : String
event_open = "open"

abbrev pub event_keepalive : String
event_keepalive = "keepalive"

abbrev pub event_message : String
event_message = "message"

abbrev pub event_message_delete : String
event_message_delete = "message_delete"

abbrev pub event_message_clear : String
event_message_clear = "message_clear"

abbrev pub event_poll_request : String
event_poll_request = "poll_request"

abbrev pub event_coop_typing : String
event_coop_typing = "coop_typing"

abbrev pub event_coop_nudge : String
event_coop_nudge = "coop_nudge"

abbrev pub webpush_event_message : String
webpush_event_message = "message"

abbrev pub webpush_event_subscription_expiring : String
webpush_event_subscription_expiring = "subscription_expiring"

unfoldable pub is_notification_event : String → Bool
is_notification_event event =
    event === event_message
    || event === event_message_delete
    || event === event_message_clear
    || event === event_coop_nudge

unfoldable pub is_coop_social_event : String → Bool
is_coop_social_event event = event === event_coop_typing

abbrev pub action_view : String
action_view = "view"

abbrev pub action_broadcast : String
action_broadcast = "broadcast"

abbrev pub action_http : String
action_http = "http"

abbrev pub action_copy : String
action_copy = "copy"
