-- ===== src/Joining/Dialog.antt =====
-- web/src/components/SubscribeDialog.jsx: the pages that create a chat, join one, and log in at its
-- server; with topicAuth of web/src/app/Api.js. A handler uses the fields as they were when it was
-- called, and errors are the keys of their texts.
pub mod Access
pub mod Sent
use Prim.Native.Char.{Char, code}
use Prim.Native.String
use coop_messenger.Prelude.{
  ℕ, String, Bool, true, false, not, ◌&&◌, ◌||◌, Option, none, some, List, [], ◌∷◌, ◌++◌, map,
  includes, ◌===◌, eqb, ltb, leb, truthy, or_else, if◌then◌else◌,
}
use coop_messenger.Types.{Config, User, Subscription}
use coop_messenger.Db.{Dexie}
use coop_messenger.Errors.{AppError, network_error, Result, ok, raise}
use coop_messenger.Utils.Urls.{◌&◌, topic_url, topic_url_auth, disallowed_topic}
use coop_messenger.Utils.Auth.{maybe_with_auth}
use coop_messenger.Users.{exists, get, save}
use coop_messenger.Api.{topic_auth}
use coop_messenger.Subscriptions.{Opts}
use coop_messenger.Account.{Request, str, token_text}
use coop_messenger.Commands.{trim, is_empty}
use coop_messenger.SignIn.{text_length}
use coop_messenger.Joining.{Client, Effect, request, poll, perform, subscribe_topic}

-- The fields of the dialog; and of the page that is shown, which has them empty when it appears.
pub record Dialog : Type 0 where
  pub topic : String
  pub display_name : String
  pub show_login_page : Bool
  pub creating : Bool
  pub error : String
  pub show_join_request : Bool
  pub join_request_sent : Bool
  pub join_request_error : String
  pub username : String
  pub password : String

abbrev pub is_alphanumeric : Char → Bool
is_alphanumeric c =
    (leb b'a' (code c) && leb (code c) b'z')
    || ((leb b'A' (code c) && leb (code c) b'Z') || (leb b'0' (code c) && leb (code c) b'9'))

abbrev pub all_alphanumeric : String → Bool
all_alphanumeric String.[] = true
all_alphanumeric (String.◌∷◌ c s) = is_alphanumeric c && all_alphanumeric s

abbrev pub is_topic_char : Char → Bool
is_topic_char c = is_alphanumeric c || (eqb (code c) b'-' || eqb (code c) b'_')

abbrev pub all_topic_chars : String → Bool
all_topic_chars String.[] = true
all_topic_chars (String.◌∷◌ c s) = is_topic_char c && all_topic_chars s

-- `/^([-_a-zA-Z0-9]{1,64})$/`
unfoldable pub valid_topic : Config → String → Bool
unfolding disallowed_topic
valid_topic config topic =
    if disallowed_topic config topic
    then false
    else all_topic_chars topic && (ltb 0 (text_length topic) && leb (text_length topic) 64)

-- `subscribeButtonEnabled` and `joinButtonEnabled`
unfoldable pub button_enabled : Config → List Subscription → String → Bool
unfolding valid_topic
button_enabled config subscriptions topic =
    valid_topic config topic
    && not (
        includes (topic_url config.base_url topic)
          (map (λ (s : Subscription). topic_url s.base_url s.topic) subscriptions))

-- A page appears; `generated` is `randomAlphanumericString(16)`.
unfoldable pub show_page : String → Dialog → Dialog
show_page generated g =
    let fresh : Dialog = record g {
      error = "";
      show_join_request = false;
      join_request_sent = false;
      join_request_error = "";
    } in
    if g.creating
    then record fresh { topic = if truthy (some g.topic) then g.topic else generated }
    else record fresh {
      topic = if eqb (text_length g.topic) 16 && all_alphanumeric g.topic then "" else g.topic;
    }

unfoldable pub switch_to_create : String → Dialog → Dialog
unfolding show_page
switch_to_create generated g = show_page generated (record g { creating = true; topic = "" })

unfoldable pub switch_to_join : String → Dialog → Dialog
unfolding show_page
switch_to_join generated g = show_page generated (record g { creating = false; topic = "" })

unfoldable pub needs_login : Dialog → Dialog
needs_login g = record g { show_login_page = true; error = ""; username = ""; password = "" }

unfoldable pub back : String → Dialog → Dialog
unfolding show_page
back generated g = show_page generated (record g { show_login_page = false })

-- The topic's field of the page for joining.
unfoldable pub type_topic : String → Dialog → Dialog
type_topic topic g = record g { topic = topic; show_join_request = false; error = "" }

unfoldable pub auth_request : (String → String) → String → String → Option User → Request
unfolding maybe_with_auth topic_url_auth
auth_request encode_base64 base_url topic user = record {
  url = topic_url_auth base_url topic;
  method = "GET";
  headers = maybe_with_auth encode_base64 [] user;
  body = none;
}

-- `topicAuth`, on the status that `fetch` gives, if it gives one.
unfoldable pub topic_auth_of : Option ℕ → Result Bool
unfolding topic_auth
topic_auth_of none = raise network_error
topic_auth_of (some status) = topic_auth status

-- The dialog, the client, and the subscription that `props.onSuccess` is called with.
pub record Outcome (d : Dexie) : Type 0 where
  pub dialog : Dialog
  pub client : Client d
  pub joined : Option Subscription

abbrev pub opts_of : String → Opts
opts_of display_name = record {
  internal = false;
  display_name = if is_empty (trim display_name) then none else some (trim display_name);
  reservation = none;
}

module _ (d : Dexie) (config : Config) (encode_base64 : String → String)
    (answer : Request → Option AppError) (status : Request → Option ℕ) where
  abbrev pub stay : Dialog → Client d → Outcome d
  stay g c = record { dialog = g; client = c; joined = none }

  -- `baseUrl` of the dialog is never set, so that the home server is meant.
  unfoldable pub handle_success : Dialog → Client d → Outcome d
  unfolding subscribe_topic trim
  handle_success g c =
      let subscribed =
        subscribe_topic d config answer config.base_url g.topic (opts_of g.display_name) c in
      record {
        dialog = g;
        client = perform d (poll subscribed.1) subscribed.0;
        joined = some subscribed.1;
      }

  abbrev pub access : String → Option User → Result Bool
  access topic user = topic_auth_of (status (auth_request encode_base64 config.base_url topic user))

  -- `handleSubscribe`, where `topicAuth` gave what it did. An exception leaves all as it is.
  unfoldable pub after_subscribe : Option User → Result Bool → Dialog → Client d → Outcome d
  unfolding handle_success needs_login
  after_subscribe user (raise e) g c = stay g c
  after_subscribe user (ok true) g c = handle_success g c
  after_subscribe (some user) (ok false) g c =
      stay (record g { error = "subscribe_dialog_error_user_not_authorized" }) c
  after_subscribe none (ok false) g c = stay (needs_login g) c

  unfoldable pub handle_subscribe : Dialog → Client d → Outcome d
  unfolding after_subscribe get
  handle_subscribe g c =
      let user = get d config c.session config.base_url c.db in
      after_subscribe user (access g.topic user) g c

  -- `handleJoin`
  unfoldable pub after_join : Option User → Result Bool → Dialog → Client d → Outcome d
  unfolding handle_success needs_login
  after_join user (raise e) g c = stay g c
  after_join user (ok true) g c = handle_success g c
  after_join (some user) (ok false) g c =
      if exists c.session
      then stay (record g { show_join_request = true }) c
      else stay (record g { error = "subscribe_dialog_error_user_not_authorized" }) c
  after_join none (ok false) g c = stay (needs_login g) c

  unfoldable pub handle_join : Dialog → Client d → Outcome d
  unfolding after_join get
  handle_join g c =
      let user = get d config c.session config.base_url c.db in
      after_join user (access g.topic user) (record g { error = ""; show_join_request = false }) c

  abbrev pub typed_user : Dialog → User
  typed_user g = record {
    base_url = config.base_url;
    username = g.username;
    password = some g.password;
    token = none;
  }

  -- `handleLogin`
  unfoldable pub after_login : Result Bool → Dialog → Client d → Outcome d
  unfolding handle_success save
  after_login (raise e) g c = stay g c
  after_login (ok true) g c =
      handle_success g (record c { db = save d config c.session (typed_user g) c.db })
  after_login (ok false) g c =
      stay (record g { error = "subscribe_dialog_error_user_not_authorized" }) c

  unfoldable pub handle_login : Dialog → Client d → Outcome d
  unfolding after_login
  handle_login g c = after_login (access g.topic (some (typed_user g))) g c

-- The response to a request to join: none, done, or an error, with the text in it.
pub data JoinAnswer : Type 0 where
  unreachable done : JoinAnswer
  refused : Option String → JoinAnswer

unfoldable pub after_join_request : JoinAnswer → Dialog → Dialog
after_join_request unreachable g = record g {
  join_request_error = "subscribe_dialog_join_request_error";
}
after_join_request done g = record g { join_request_sent = true }
after_join_request (refused text) g = record g {
  join_request_error =
      if truthy text then or_else text "" else "subscribe_dialog_join_request_error";
}

abbrev pub join_request : {d : Dexie} → Config → Client d → String → Request
join_request config c topic = record {
  url = config.base_url & "/v1/join-requests";
  method = "POST";
  headers =
      ("Content-Type", "application/json")
      ∷ ("Authorization", "Bearer " & token_text c.session)
      ∷ [];
  body = some (("topic", str topic) ∷ []);
}

module _ (d : Dexie) (config : Config) where
  unfoldable pub handle_send_join_request : JoinAnswer → Dialog → Client d → Dialog × Client d
  unfolding after_join_request
  handle_send_join_request response g c = (
    after_join_request response (record g { join_request_error = "" }),
    perform d (request (join_request config c g.topic)) c,
  )

-- The button that sends the request, and the text that it was sent.
abbrev pub can_send : Dialog → Bool
can_send g = g.show_join_request && not g.join_request_sent

abbrev pub says_sent : Dialog → Bool
says_sent g = g.show_join_request && g.join_request_sent
