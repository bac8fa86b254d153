-- ===== src/Joining.antt =====
-- How the user comes into a chat and leaves it: subscribeTopic of web/src/components/SubscribeDialog.jsx,
-- handleJoin of InvitePage.jsx, useAutoSubscribe of hooks.js, and the handlers of SubscriptionPopup.jsx.
-- What the home server answers to a request, through `fetchOrThrow`, is the argument `answer`: no error,
-- or one.
pub mod Invited
pub mod Leaving
pub mod Conversations
pub mod Dialog
use coop_messenger.Prelude.{
  ℕ, String, Bool, true, false, not, ◌&&◌, Option, none, some, List, [], ◌∷◌, ◌++◌, ◌===◌, truthy,
  or_else, if◌then◌else◌,
}
use coop_messenger.Types.{Config, Session, Subscription}
use coop_messenger.Db.{Dexie, Db}
use coop_messenger.Errors.{AppError, unauthorized}
use coop_messenger.Utils.Urls.{expand_secure_url, disallowed_topic}
use coop_messenger.Users.{exists, reset}
use coop_messenger.Subscriptions.{Opts, add, remove, set_display_name, set_muted_until}
use coop_messenger.Subscriptions.Stored.{delete_notifications}
use coop_messenger.Subscriptions.Reads.{first}
use coop_messenger.Account.{Request, str}
use coop_messenger.Account.Requests.{add_subscription, update_subscription, delete_subscription}
use coop_messenger.App.{Params, for_subscription}

-- What is done besides, in order.
pub data Effect : Type 0 where
  request : Request → Effect
  poll : Subscription → Effect
  redirect_to_login : Effect
  navigate : String → Effect
  navigate_to_app : Effect
  go_home_later : Effect

-- The database, the session in `localStorage`, and what was done.
pub record Client (d : Dexie) : Type 0 where
  pub db : Db d
  pub session : Session
  pub effects : List Effect

abbrev pub no_opts : Opts
no_opts = record { internal = false; display_name = none; reservation = none }

module _ (d : Dexie) where
  abbrev pub perform : Effect → Client d → Client d
  perform e c = record c { effects = c.effects ++ e ∷ [] }

  -- The `catch` around a request to the account: an expired session is ended.
  abbrev pub after_failure : AppError → Client d → Client d
  after_failure unauthorized c = record c {
    session = reset c.session;
    effects = c.effects ++ redirect_to_login ∷ [];
  }
  after_failure e c = c

  abbrev pub settle : Option AppError → Client d → Client d
  settle none c = c
  settle (some e) c = after_failure e c

module _ (d : Dexie) (config : Config) (answer : Request → Option AppError) where
  -- The second request is sent if the first succeeded and there is a name.
  abbrev pub name_in_account :
      String → String → Option String → Option AppError → Client d → Client d
  name_in_account base_url topic display_name (some e) c = after_failure d e c
  name_in_account base_url topic display_name none c =
      let naming =
        update_subscription config c.session base_url topic
          (("display_name", str (or_else display_name "")) ∷ []) in
      if truthy display_name then settle d (answer naming) (perform d (request naming) c) else c

  unfoldable pub add_to_account : String → String → Option String → Client d → Client d
  unfolding add_subscription reset
  add_to_account base_url topic display_name c =
      let adding = add_subscription config c.session base_url topic in
      name_in_account base_url topic display_name (answer adding) (perform d (request adding) c)

  unfoldable pub subscribe_topic : String → String → Opts → Client d → Client d × Subscription
  unfolding add add_to_account
  subscribe_topic base_url topic opts c =
      let added = add d base_url topic opts c.db in
      let local : Client d = record c { db = added.0 } in
      (
        if exists c.session then add_to_account base_url topic opts.display_name local else local,
        added.1,
      )

  -- The loop over the topics of an invite.
  unfoldable pub join_topics : List String → Client d → Client d
  unfolding subscribe_topic
  join_topics [] c = c
  join_topics (topic ∷ topics) c =
      let joined = subscribe_topic config.base_url topic no_opts c in
      join_topics topics (perform d (poll joined.1) joined.0)

  -- `useAutoSubscribe`, run once, on whether a subscription is selected.
  unfoldable pub auto_subscribe : Params → Bool → Client d → Client d
  unfolding add add_to_account disallowed_topic
  auto_subscribe params is_selected c =
      let topic = or_else params.topic "" in
      let base_url =
        if truthy params.base_url
        then expand_secure_url (or_else params.base_url "")
        else config.base_url in
      let added = add d base_url topic no_opts c.db in
      let local : Client d = record c { db = added.0 } in
      if truthy params.topic && (not is_selected && not (disallowed_topic config topic))
      then (if exists c.session
          then perform d (poll added.1) (add_to_account base_url topic none local)
          else perform d (poll added.1) local)
      else c

  unfoldable pub handle_clear_all : Subscription → Client d → Client d
  unfolding delete_notifications
  handle_clear_all s c = record c { db = delete_notifications d s.id c.db }

  unfoldable pub handle_set_muted_until : Subscription → ℕ → Client d → Client d
  unfolding set_muted_until
  handle_set_muted_until s time c = record c { db = set_muted_until d s.id time c.db }

  -- Where the user is taken after a chat was left.
  abbrev pub next_route : Option Subscription → Effect
  next_route none = navigate_to_app
  next_route (some s) =
      if not s.internal then navigate (for_subscription config s) else navigate_to_app

  unfoldable pub handle_unsubscribe : Subscription → Client d → Client d
  unfolding remove first delete_subscription
  handle_unsubscribe s c =
      let local : Client d = record c { db = remove d s.id c.db } in
      let leaving = delete_subscription config c.session s.base_url s.topic in
      perform d (next_route (first d local.db)) (
        if exists c.session && not s.internal
        then settle d (answer leaving) (perform d (request leaving) local)
        else local)

  -- `handleSave` of the display name: the message of the error, if the dialog stays open.
  abbrev pub after_save :
      (AppError → String) → Option AppError → Client d → Client d × Option String
  after_save message none c = (c, none)
  after_save message (some unauthorized) c = (after_failure d unauthorized c, none)
  after_save message (some e) c = (c, some (message e))

  unfoldable pub handle_save :
      (AppError → String) → Subscription → String → Client d → Client d × Option String
  unfolding set_display_name update_subscription
  handle_save message s display_name c =
      let local : Client d = record c { db = set_display_name d s.id (some display_name) c.db } in
      let naming =
        update_subscription config c.session s.base_url s.topic
          (("display_name", str display_name) ∷ []) in
      if exists c.session && not s.internal
      then after_save message (answer naming) (perform d (request naming) local)
      else (local, none)

-- The page of an invite. `submit_error` is the text, or the key of the text, that is shown.
pub record Invite : Type 0 where
  pub submitting : Bool
  pub submit_error : Option String
  pub join_success : Bool

-- The response to a join: its topics, an error of the server, or no response.
pub data Joining : Type 0 where
  joined : List String → Joining
  refused : Option String → Joining
  unreachable : Joining

module _ (d : Dexie) (config : Config) (answer : Request → Option AppError) where
  unfoldable pub handle_join : Joining → Invite → Client d → Invite × Client d
  unfolding join_topics
  handle_join (joined topics) page c = (
    record page { submitting = false; submit_error = none; join_success = true },
    perform d go_home_later (join_topics d config answer topics c),
  )
  handle_join (refused text) page c = (
    record page {
      submitting = false;
      submit_error = some (or_else text "invite_error_join_failed");
    },
    c,
  )
  handle_join unreachable page c =
      (record page { submitting = false; submit_error = some "invite_error_network_join" }, c)
