-- ===== src/Joining/Conversations.antt =====
-- The direct messages of web/src/components/ContactList.jsx and UserProfile.jsx, and the groups of
-- GroupCreate.jsx.
pub mod Named
use coop_messenger.Prelude.{
  String, Bool, true, false, not, Option, none, some, List, [], ◌∷◌, ◌++◌, filter, any, ◌===◌,
  or_else, if◌then◌else◌,
}
use coop_messenger.Types.{Config, Subscription}
use coop_messenger.Db.{Dexie}
use coop_messenger.Errors.{AppError}
use coop_messenger.Subscriptions.{Opts, add}
use coop_messenger.Account.{Request, str}
use coop_messenger.Account.Requests.{add_subscription, update_subscription}
use coop_messenger.Account.Social.{create_group}
use coop_messenger.Commands.{is_empty, trim}
use coop_messenger.Joining.{Client, perform, request}

-- The form of a new group. Texts that are translated are their keys.
pub record GroupForm : Type 0 where
  pub name : String
  pub selected : List String
  pub creating : Bool
  pub error : String

-- The set of the members, in the order in which they were chosen.
unfoldable pub toggle_member : String → List String → List String
toggle_member username members =
    if any (λ m. m === username) members
    then filter (λ m. not (m === username)) members
    else members ++ username ∷ []

module _ (d : Dexie) (config : Config) (answer : Request → Option AppError) where
  -- The second request is sent if the first succeeded; errors are ignored.
  abbrev pub name_on_server : String → String → Option AppError → Client d → Client d
  name_on_server topic name (some e) c = c
  name_on_server topic name none c =
      perform d
        (request (
          update_subscription config c.session config.base_url topic
            (("display_name", str name) ∷ [])))
        c

  -- The subscription to the topic of a conversation that the server has made.
  unfoldable pub subscribe_named : String → String → Client d → Client d
  unfolding add add_subscription update_subscription
  subscribe_named topic name c =
      let opts : Opts = record { internal = false; display_name = some name; reservation = none } in
      let local : Client d = record c { db = (add d config.base_url topic opts c.db).0 } in
      let adding = add_subscription config c.session config.base_url topic in
      name_on_server topic name (answer adding) (perform d (request adding) local)

  -- `handleDM`, on the answer of `startDM`: the topic with the name, if the server gives one.
  unfoldable pub handle_dm : String → Option (String × Option String) → Client d → Client d
  unfolding subscribe_named
  handle_dm username none c = c
  handle_dm username (some (topic, display_name)) c =
      subscribe_named topic (or_else display_name username) c

  -- `handleCreate`; `made` is the topic that the server gives, if it makes the group.
  unfoldable pub handle_create : GroupForm → Option String → Client d → GroupForm × Client d
  unfolding create_group subscribe_named
  handle_create form made c =
      let asked : Client d =
        perform d (request (create_group config c.session (trim form.name) form.selected)) c in
      if is_empty (trim form.name)
      then (record form { error = "group_name_required" }, c)
      else elim form.selected [
        | [] ↦ (record form { error = "group_members_required" }, c)
        | m ∷ ms ↦ elim made [
          | none ↦ (record form { creating = false; error = "group_create_error" }, asked)
          | some topic ↦ (
            record form { creating = false; error = "" },
            subscribe_named topic (trim form.name) asked,
          )
        ]
      ]
