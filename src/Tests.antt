-- ===== src/Tests.antt =====
-- Test data, and in the child modules the theorems applied to it.
mod Messages
mod Connections
mod Client
mod Clicks
mod Chats
mod Inputs
mod Pages
mod Push
mod Admin
mod Delivery
mod Dialogs
mod Storage
use coop_messenger.Prelude.{ℕ, String, Bool, true, false, Option, none, some, List, [], ◌∷◌}
use coop_messenger.Events.{event_message}
use coop_messenger.Types.{Message, Subscription, Session, Config}
use coop_messenger.Db.{Db, assoc_dexie}
use coop_messenger.Subscriptions.{RemoteSubscription}

abbrev pub home : Config
home = record { base_url = "https://coop"; disallowed_topics = [] }

abbrev pub alice : Session
alice = record { username = some "alice"; token = some "tk_1" }

-- a message as the server sends it
abbrev pub sent : String → String → ℕ → Option String → Message
sent id event time sequence_id = record {
  id = id;
  event = event;
  time = time;
  topic = "chat";
  sequence_id = sequence_id;
  sender = some "bob";
  priority = none;
  title = none;
  message = some "hello";
  tags = none;
  click = none;
  attachment = none;
  actions = none;
  stored_sequence_id = none;
  subscription_id = none;
  new = none;
}

-- the row of a message that was received before
abbrev pub row : String → ℕ → String → String → Message
row id time sequence_id sub = record (sent id event_message time (some sequence_id)) {
  stored_sequence_id = some sequence_id;
  subscription_id = some sub;
  new = some 1;
}

abbrev pub subscribed : String → String → String → Bool → Subscription
subscribed id base_url topic internal = record {
  id = id;
  base_url = base_url;
  topic = topic;
  muted_until = 0;
  last = none;
  internal = internal;
  display_name = none;
  reservation = none;
  state = none;
}

abbrev pub chat : Subscription
chat = subscribed "https://coop/chat" "https://coop" "chat" false

abbrev pub news : Subscription
news = subscribed "https://coop/news" "https://coop" "news" false

abbrev pub away : Subscription
away = subscribed "https://other/chat" "https://other" "chat" false

abbrev pub sync_topic : Subscription
sync_topic = subscribed "https://coop/st_1" "https://coop" "st_1" true

abbrev pub empty : Db assoc_dexie
empty = record {
  subscriptions = assoc_dexie.subscriptions.empty;
  notifications = assoc_dexie.notifications.empty;
  users = assoc_dexie.users.empty;
  prefs = assoc_dexie.prefs.empty;
}

-- two subscriptions and the internal one, with two messages in the first and one in the second
abbrev pub some_db : Db assoc_dexie
some_db = record empty {
  subscriptions = assoc_dexie.subscriptions.put chat (
      assoc_dexie.subscriptions.put news
        (assoc_dexie.subscriptions.put sync_topic empty.subscriptions));
  notifications = assoc_dexie.notifications.put (row "m1" 100 "s1" "https://coop/chat") (
      assoc_dexie.notifications.put (row "m2" 200 "s2" "https://coop/chat") (
        assoc_dexie.notifications.put (row "m3" 300 "s3" "https://coop/news") empty.notifications));
}

-- the account has the first subscription and one on another server
abbrev pub remotes : List RemoteSubscription
remotes =
    record { base_url = "https://coop"; topic = "chat"; display_name = none }
    ∷ record { base_url = "https://other"; topic = "chat"; display_name = none }
    ∷ []
