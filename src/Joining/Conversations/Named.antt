-- ===== src/Joining/Conversations/Named.antt =====
-- The name under which a conversation is shown.
use coop_messenger.Prelude.{
  ◌≡◌, refl, ap, ◌∙◌, String, true, false, includes, map, Option, none, some, List, ◌===◌,
  if◌then◌else◌, arith, or_else,
}
use coop_messenger.Types.{Config, Subscription, Reservation}
use coop_messenger.Db.{Dexie}
use coop_messenger.Errors.{AppError}
use coop_messenger.Utils.Urls.{topic_url}
use coop_messenger.Subscriptions.{sync_from_remote, RemoteSubscription, Opts, get, new_subscription}
use coop_messenger.Subscriptions.Sync.{get-add, remote_id, Synced, sync_from_remote-Synced}
use coop_messenger.Account.{Request}
use coop_messenger.Joining.{Client}
use coop_messenger.Joining.Conversations.{name_on_server, subscribe_named, handle_dm}

abbrev pub named : String → Opts
named name = record { internal = false; display_name = some name; reservation = none }

-- What is there under an id, where a subscription to a topic is added with a name.
abbrev pub with_name : Config → String → String → String → Option Subscription → Option Subscription
with_name config topic name id (some s) = some s
with_name config topic name id none =
    if topic_url config.base_url topic === id
    then some (new_subscription config.base_url topic (named name))
    else none

module _ (d : Dexie) (config : Config) (answer : Request → Option AppError) where
  db-name_on_server :
      (topic name : String) (o : Option AppError) (c : Client d)
      → (name_on_server d config answer topic name o c).db ≡ c.db
  db-name_on_server topic name none c = refl
  db-name_on_server topic name (some e) c = refl

  -- After a direct message was started, whatever the account answers about it, its topic has a
  -- subscription with the name that the server gives, or else the user's. A subscription that was there
  -- stays as it was, with the name that it had, and nothing else is added.
  handle_dm-with_name :
      (username topic : String) (display_name : Option String) (c : Client d) (id : String)
      → get d id (handle_dm d config answer username (some (topic, display_name)) c).db
        ≡ with_name config topic (or_else display_name username) id (get d id c.db)
  unfolding handle_dm subscribe_named
  handle_dm-with_name username topic display_name c id =
      ap (get d id) (db-name_on_server topic (or_else display_name username) _ _)
      ∙ get-add d config.base_url topic _ c.db id
      ∙ same (get d id c.db)
    where
      name : String
      name = or_else display_name username

      same :
          (o : Option Subscription)
          → (elim o [
            | some s ↦ some s
            | none ↦
                if topic_url config.base_url topic === id
                then some (new_subscription config.base_url topic (named name))
                else none
          ])
            ≡ with_name config topic name id o
      same none = refl
      same (some s) = refl

  -- If the account lists the chat of a direct message by whatever name, and it was there before, the
  -- next sync leaves it with the name that it had: the new name never gets to the client.
  handle_dm-sync_from_remote :
      (username topic : String) (display_name : Option String) (c : Client d) (s : Subscription)
      (remotes : List RemoteSubscription) (reservations : Option (List Reservation))
      → get d (topic_url config.base_url topic) c.db ≡ some s
      → includes (topic_url config.base_url topic) (map remote_id remotes) ≡ true
      → get d (topic_url config.base_url topic) (
          sync_from_remote d config remotes reservations
            (handle_dm d config answer username (some (topic, display_name)) c).db)
        ≡ some s
  handle_dm-sync_from_remote username topic display_name c s remotes reservations h k =
      let id = topic_url config.base_url topic in
      let started = (handle_dm d config answer username (some (topic, display_name)) c).db in
      let kept : get d id started ≡ some s =
        handle_dm-with_name username topic display_name c id
        ∙ ap (with_name config topic (or_else display_name username) id) h in
      let synced : Synced (map remote_id remotes) id (some s)
          (get d id (sync_from_remote d config remotes reservations started)) =
        rw kept at (sync_from_remote-Synced d config remotes reservations started id) in
      synced ∙ ground (arith, k)
