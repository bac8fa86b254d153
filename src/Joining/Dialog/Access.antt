-- ===== src/Joining/Dialog/Access.antt =====
-- Into which chats the dialog takes the user.
use coop_messenger.Prelude.{
  ℕ, ◌≡◌, refl, ap, sym, ◌∙◌, String, Bool, true, false, ◌&&◌, ◌||◌, Option, none, some, leb, eqb,
  ◌===◌, arith, Bool-cases, inl, inr, if◌then◌else◌, eq_refl,
}
use coop_messenger.Types.{Config, Session, User, Subscription}
use coop_messenger.Db.{Dexie, Db}
use coop_messenger.Errors.{AppError, network_error, error, ok, raise}
use coop_messenger.Utils.Urls.{◌&◌, topic_url}
use coop_messenger.Users.{exists}
use coop_messenger.Users as Users
use coop_messenger.Prelude.Decimal.{to_string}
use coop_messenger.Api.{topic_auth}
use coop_messenger.Subscriptions.{Opts, get, add, new_subscription}
use coop_messenger.Subscriptions.Sync.{get-add}
use coop_messenger.Commands.{trim, is_empty}
use coop_messenger.Account.{Request}
use coop_messenger.Joining.{Client}
use coop_messenger.Joining.Invited.{get-subscribe_topic}
use coop_messenger.Joining.Dialog.{
  Dialog, Outcome, opts_of, auth_request, topic_auth_of, handle_success, after_subscribe,
  handle_subscribe, after_join, handle_join, typed_user, after_login, handle_login,
}

-- The three ways in.
pub data Way : Type 0 where
  creating joining logging_in : Way

abbrev pub is_granted : Option ℕ → Bool
is_granted none = false
is_granted (some status) = leb 200 status && leb status 299

abbrev pub non_empty : String → Option String
non_empty String.[] = none
non_empty (String.◌∷◌ c t) = some (String.◌∷◌ c t)

-- The name that a new chat gets: the one that was typed, without the white space around it.
abbrev pub trimmed_name : String → Option String
trimmed_name name = non_empty (trim name)

abbrev pub named : String → Opts
named name = record { internal = false; display_name = trimmed_name name; reservation = none }

same_name : (t : String) → (if is_empty t then none else some t) ≡ non_empty t
same_name String.[] = refl
same_name (String.◌∷◌ c t) = refl

opts_of-named : (name : String) → opts_of name ≡ named name
opts_of-named name =
    ap (λ o. record { internal = false; display_name = o; reservation = none })
      (same_name (trim name))

-- What is there under an id, after a chat was added under the dialog's name for it.
abbrev pub with_chat : Config → String → String → String → Option Subscription → Option Subscription
with_chat config topic name id (some s) = some s
with_chat config topic name id none =
    if topic_url config.base_url topic === id
    then some (new_subscription config.base_url topic (named name))
    else none

-- What `topicAuth` gives, and that only a granted access gives true.
data Checked (o : Option ℕ) : Type 0 where
  granted : topic_auth_of o ≡ ok true → is_granted o ≡ true → Checked o
  refused : topic_auth_of o ≡ ok false → is_granted o ≡ false → Checked o
  thrown : (e : AppError) → topic_auth_of o ≡ raise e → is_granted o ≡ false → Checked o

topic_auth_of-Checked : (o : Option ℕ) → Checked o
unfolding topic_auth_of topic_auth
topic_auth_of-Checked none = thrown network_error refl refl
topic_auth_of-Checked (some n) = elim (Bool-cases (leb 200 n && leb n 299)) [
  | inl in_range ↦ granted (rw in_range refl) in_range
  | inr outside ↦ elim (Bool-cases (eqb n 401 || eqb n 403)) [
    | inl denied ↦ refused (rw (outside, denied) refl) outside
    | inr other ↦
        thrown (error ("Unexpected server response " & to_string n)) (rw (outside, other) refl)
          outside
  ]
]

module _ (d : Dexie) (config : Config) where
  abbrev pub Entered : Bool → String → String → String → Client d → Outcome d → Type 0
  Entered true id topic name c o =
      (o.joined ≡ get d (topic_url config.base_url topic) o.client.db)
      × (get d id o.client.db ≡ with_chat config topic name id (get d id c.db))
  Entered false id topic name c o = (o.joined ≡ none) × (o.client ≡ c)

  get-add_self :
      (topic : String) (opts : Opts) (db : Db d)
      → get d (topic_url config.base_url topic) (add d config.base_url topic opts db).0
        ≡ some (add d config.base_url topic opts db).1
  unfolding add get new_subscription
  get-add_self topic opts db = ground (
    arith,
    d.subscriptions.get-put (topic_url config.base_url topic)
        (new_subscription config.base_url topic opts) db.subscriptions,
    eq_refl (topic_url config.base_url topic),
  )

  get-add_chat :
      (g : Dialog) (db : Db d) (id : String)
      → get d id (add d config.base_url g.topic (opts_of g.display_name) db).0
        ≡ with_chat config g.topic g.display_name id (get d id db)
  get-add_chat g db id =
      get-add d config.base_url g.topic (opts_of g.display_name) db id ∙ same (get d id db)
    where
      same :
          (o : Option Subscription)
          → (elim o [
            | some s ↦ some s
            | none ↦
                if topic_url config.base_url g.topic === id
                then some (new_subscription config.base_url g.topic (opts_of g.display_name))
                else none
          ])
            ≡ with_chat config g.topic g.display_name id o
      same none = rw (← opts_of-named g.display_name) refl
      same (some s) = refl

  get-save :
      (session : Session) (user : User) (db : Db d) (id : String)
      → get d id (Users.save d config session user db) ≡ get d id db
  unfolding get Users.save
  get-save session user db id = ground arith

module _ (d : Dexie) (config : Config) (encode_base64 : String → String)
    (answer : Request → Option AppError) (status : Request → Option ℕ) where
  handle_success-Entered :
      (g : Dialog) (c : Client d) (id : String)
      → Entered d config true id g.topic g.display_name c
          (handle_success d config encode_base64 answer status g c)
  unfolding handle_success
  handle_success-Entered g c id = (
    sym (
        get-subscribe_topic d config answer config.base_url g.topic (opts_of g.display_name) c
          (topic_url config.base_url g.topic)
        ∙ get-add_self d config g.topic (opts_of g.display_name) c.db),
    get-subscribe_topic d config answer config.base_url g.topic (opts_of g.display_name) c id
        ∙ get-add_chat d config g c.db id,
  )

  -- Whose access is checked.
  abbrev pub checked_user : Way → Dialog → Client d → Option User
  checked_user creating g c = Users.get d config c.session config.base_url c.db
  checked_user joining g c = Users.get d config c.session config.base_url c.db
  checked_user logging_in g c = some (typed_user d config encode_base64 answer status g)

  abbrev pub enter : Way → Dialog → Client d → Outcome d
  enter creating = handle_subscribe d config encode_base64 answer status
  enter joining = handle_join d config encode_base64 answer status
  enter logging_in = handle_login d config encode_base64 answer status

  after_subscribe-Entered :
      (user : Option User) (o : Option ℕ) (g : Dialog) (c : Client d) (id : String)
      → Entered d config
          (is_granted o)
          id
          g.topic
          g.display_name
          c
          (after_subscribe d config encode_base64 answer status user (topic_auth_of o) g c)
  unfolding after_subscribe
  after_subscribe-Entered user o g c id = elim (topic_auth_of-Checked o) [
    | granted e h ↦ rw (e, h) (handle_success-Entered g c id)
    | refused e h ↦ rw (e, h) (refused_by user)
    | thrown x e h ↦ rw (e, h) (refl, refl)
  ]
    where
      refused_by :
          (u : Option User)
          → Entered d config false id g.topic g.display_name c
              (after_subscribe d config encode_base64 answer status u (ok false) g c)
      refused_by none = (refl, refl)
      refused_by (some u) = (refl, refl)

  after_join-Entered :
      (user : Option User) (o : Option ℕ) (g : Dialog) (c : Client d) (id : String)
      → Entered d config
          (is_granted o)
          id
          g.topic
          g.display_name
          c
          (after_join d config encode_base64 answer status user (topic_auth_of o) g c)
  unfolding after_join
  after_join-Entered user o g c id = elim (topic_auth_of-Checked o) [
    | granted e h ↦ rw (e, h) (handle_success-Entered g c id)
    | refused e h ↦ rw (e, h) (refused_by user)
    | thrown x e h ↦ rw (e, h) (refl, refl)
  ]
    where
      refused_by :
          (u : Option User)
          → Entered d config false id g.topic g.display_name c
              (after_join d config encode_base64 answer status u (ok false) g c)
      refused_by none = (refl, refl)
      refused_by (some u) = elim (Bool-cases (exists c.session)) [
        | inl signed_in ↦ rw signed_in (refl, refl)
        | inr signed_out ↦ rw signed_out (refl, refl)
      ]

  after_login-Entered :
      (o : Option ℕ) (g : Dialog) (c : Client d) (id : String)
      → Entered d config
          (is_granted o)
          id
          g.topic
          g.display_name
          c
          (after_login d config encode_base64 answer status (topic_auth_of o) g c)
  unfolding after_login
  after_login-Entered o g c id = elim (topic_auth_of-Checked o) [
    | granted e h ↦
        let user = typed_user d config encode_base64 answer status g in
        let saved : Client d = record c { db = Users.save d config c.session user c.db } in
        rw (e, h)
          (
            (handle_success-Entered g saved id).0,
            (handle_success-Entered g saved id).1
                ∙ ap (with_chat config g.topic g.display_name id)
                    (get-save d config c.session user c.db id),
          )
    | refused e h ↦ rw (e, h) (refl, refl)
    | thrown x e h ↦ rw (e, h) (refl, refl)
  ]

  abbrev asked : Way → Dialog → Client d → Option ℕ
  asked way g c = status (auth_request encode_base64 config.base_url g.topic (checked_user way g c))

  -- Whichever page of the dialog is used: exactly if the home server answers the question for the access
  -- of the user, who at the login is the one that was typed, with a status from 200 to 299, the dialog
  -- opens the subscription to the topic, which is there afterwards: as it was, or new under the trimmed
  -- name, with nothing else added or changed. Otherwise, errors included, nothing is opened, and the
  -- database, the session and the requests are as they were.
  pub enter-Entered :
      (way : Way) (g : Dialog) (c : Client d) (id : String)
      → Entered d config
          (is_granted
            (status (auth_request encode_base64 config.base_url g.topic (checked_user way g c))))
          id
          g.topic
          g.display_name
          c
          (enter way g c)
  unfolding handle_subscribe handle_join handle_login
  enter-Entered creating g c id =
      after_subscribe-Entered (checked_user creating g c) (asked creating g c) g c id
  enter-Entered joining g c id =
      after_join-Entered (checked_user joining g c) (asked joining g c)
        (record g { error = ""; show_join_request = false }) c id
  enter-Entered logging_in g c id = after_login-Entered (asked logging_in g c) g c id
