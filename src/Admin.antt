-- ===== src/Admin.antt =====
-- web/src/components/AdminPanel.jsx: what an administrator does with users, chats and invites, and what
-- the page says of it. Texts are their translation keys. `answer n r` is what comes of the n-th request: an
-- error, or the JSON of the response, as a list or not.
pub mod Names
pub mod Told
pub mod Topics
use coop_messenger.Prelude.{
  ℕ, String, Bool, true, false, not, ◌||◌, Option, none, some, List, [], ◌∷◌, ◌++◌, map, filter,
  length, eqb, ltb, ◌===◌, truthy, if◌then◌else◌,
}
use coop_messenger.Types.{Config, Session}
use coop_messenger.Errors.{AppError, Result, ok, raise}
use coop_messenger.Utils.Urls.{◌&◌}
use coop_messenger.Utils.Auth.{Headers}
use coop_messenger.Account.{Request, Body, Json, str, num, token_text}
use coop_messenger.Commands.{trim, is_empty}
use coop_messenger.Admin.Names.{topics_clean}

-- The state of a tab. The tabs of users, chats and invites have states of their own, of which each has
-- the lists and fields that it shows; `requests` is what was requested so far.
pub record Tab (Row : Type 0) : Type 0 where
  pub users : List Row
  pub topic_stats : List Row
  pub join_requests : List Row
  pub invites : List Row
  pub username : String
  pub password : String
  pub topic : String
  pub permission : String
  pub topics : String
  pub max_uses : String
  pub expires : String
  pub error : String
  pub success : String
  pub requests : List Request

-- What the administrator does.
pub data Change : Type 0 where
  create_user : Change
  delete_user : String → Change
  -- the id of the request, and the new status
  resolve_join_request : String → String → Change
  delete_topic : String → Change
  grant_access : Change
  revoke_access : String → String → Change
  create_invite : Change
  delete_invite : String → Change

-- The texts of success.
abbrev pub success_of : Change → String
success_of create_user = "admin_users_created"
success_of (delete_user username) = "admin_users_deleted"
success_of (resolve_join_request id status) =
    if status === "approved" then "admin_chats_join_approved" else "admin_chats_join_denied"
success_of (delete_topic topic) = "admin_chats_topic_deleted"
success_of grant_access = "admin_chats_access_granted"
success_of (revoke_access username topic) = "admin_chats_access_revoked"
success_of create_invite = "admin_invites_created"
success_of (delete_invite token) = "admin_invites_deleted"

module _ (config : Config) (session : Session) where
  abbrev pub auth_headers : Headers
  auth_headers = ("Authorization", "Bearer " & token_text session) ∷ []

  abbrev pub json_headers : Headers
  json_headers = auth_headers ++ ("Content-Type", "application/json") ∷ []

  abbrev pub listing : String → Request
  listing path = record {
    url = config.base_url & path;
    method = "GET";
    headers = auth_headers;
    body = none;
  }

  abbrev pub with_json : String → String → Body → Request
  with_json method path body = record {
    url = config.base_url & path;
    method = method;
    headers = json_headers;
    body = some body;
  }

  abbrev pub delete_at : String → Request
  delete_at path = record {
    url = config.base_url & path;
    method = "DELETE";
    headers = auth_headers;
    body = none;
  }

module _ {Row : Type 0} where
  -- Where a handler returns at once, and nothing is done.
  abbrev pub returns_at_once : Change → Tab Row → Bool
  returns_at_once create_user s = is_empty (trim s.username) || is_empty (trim s.password)
  returns_at_once grant_access s = is_empty (trim s.username) || is_empty (trim s.topic)
  returns_at_once change s = false

  -- The fields that are emptied.
  abbrev pub clear_fields : Change → Tab Row → Tab Row
  clear_fields create_user s = record s { username = ""; password = "" }
  clear_fields grant_access s = record s { username = ""; topic = "" }
  clear_fields create_invite s = record s { topics = ""; max_uses = ""; expires = "" }
  clear_fields change s = s

  module _ (config : Config) (session : Session) where
    -- `encodeURIComponent`; `parseInt(…, 10)`, if it is a number above 0; and the seconds of a date, as
    -- JSON has them.
    module _ (encode : String → String) (parse_int : String → Option ℕ)
        (seconds : String → Json) where
      abbrev pub invite_body : Tab Row → Body
      invite_body s =
          ("topics", str (topics_clean s.topics))
            ∷ (if truthy (some s.max_uses)
                then (elim (parse_int s.max_uses) [ none ↦ [] | some n ↦ ("max_uses", num n) ∷ [] ])
                else [])
          ++ (if truthy (some s.expires) then ("expires", seconds s.expires) ∷ [] else [])

      unfoldable pub change_request : Change → Tab Row → Request
      unfolding topics_clean trim
      change_request create_user s =
          with_json config session "POST" "/v1/users"
            (("username", str (trim s.username)) ∷ ("password", str s.password) ∷ [])
      change_request (delete_user username) s =
          with_json config session "DELETE" "/v1/users" (("username", str username) ∷ [])
      change_request (resolve_join_request id status) s =
          with_json config session "PUT" ("/v1/join-requests/" & id) (("status", str status) ∷ [])
      change_request (delete_topic topic) s =
          delete_at config session ("/v1/admin/topics/" & encode topic)
      change_request grant_access s = with_json config session "POST" "/v1/users/access" (
          ("username", str (trim s.username))
          ∷ ("topic", str (trim s.topic))
          ∷ ("permission", str s.permission)
          ∷ [])
      change_request (revoke_access username topic) s =
          with_json config session "DELETE" "/v1/users/access"
            (("username", str username) ∷ ("topic", str topic) ∷ [])
      change_request create_invite s = with_json config session "POST" "/v1/invites" (invite_body s)
      change_request (delete_invite token) s = delete_at config session ("/v1/invites/" & token)

  module _ (config : Config) (session : Session) (message : AppError → String)
      (answer : ℕ → Request → Result (Option (List Row))) where
    abbrev pub after_request : Request → Tab Row → Tab Row
    after_request r s = record s { requests = s.requests ++ r ∷ [] }

    abbrev pub answer_to : Request → Tab Row → Result (Option (List Row))
    answer_to r s = answer (length s.requests) r

    -- `Array.isArray(data) ? data : []`
    abbrev pub rows_of : Option (List Row) → List Row
    rows_of none = []
    rows_of (some rows) = rows

    unfoldable pub fetch_users : Tab Row → Tab Row
    fetch_users s =
        let after = after_request (listing config session "/v1/users") s in
        elim (answer_to (listing config session "/v1/users") s) [
          | ok json ↦ record after { users = rows_of json; error = "" }
          | raise e ↦ record after { error = message e }
        ]

    unfoldable pub fetch_topic_stats : Tab Row → Tab Row
    fetch_topic_stats s =
        let after = after_request (listing config session "/v1/admin/topics/stats") s in
        elim (answer_to (listing config session "/v1/admin/topics/stats") s) [
          | ok json ↦ record after { topic_stats = rows_of json }
          | raise e ↦ record after { error = message e }
        ]

    unfoldable pub fetch_join_requests : Tab Row → Tab Row
    fetch_join_requests s =
        let after = after_request (listing config session "/v1/join-requests?status=pending") s in
        elim (answer_to (listing config session "/v1/join-requests?status=pending") s) [
          | ok json ↦ record after { join_requests = rows_of json }
          | raise e ↦ after
        ]

    unfoldable pub fetch_invites : Tab Row → Tab Row
    fetch_invites s =
        let after = after_request (listing config session "/v1/invites") s in
        elim (answer_to (listing config session "/v1/invites") s) [
          | ok json ↦ record after { invites = rows_of json; error = "" }
          | raise e ↦ record after { error = message e }
        ]

    -- What is fetched anew behind a change.
    unfoldable pub refetch : Change → Tab Row → Tab Row
    unfolding fetch_users fetch_topic_stats fetch_join_requests fetch_invites
    refetch (resolve_join_request id status) s =
        let resolved = fetch_join_requests s in
        if status === "approved" then fetch_users resolved else resolved
    refetch (delete_topic topic) s = fetch_users (fetch_topic_stats s)
    refetch create_invite s = fetch_invites s
    refetch (delete_invite token) s = fetch_invites s
    refetch change s = fetch_users s

    module _ (encode : String → String) (parse_int : String → Option ℕ)
        (seconds : String → Json) where
      -- The handlers: `fetchOrThrow` of the request, and what follows it.
      unfoldable pub handle : Change → Tab Row → Tab Row
      unfolding change_request refetch
      handle change s =
          let r = change_request config session encode parse_int seconds change s in
          let done : Tab Row =
            clear_fields change
              (record (after_request r s) { success = success_of change; error = "" }) in
          let followed = refetch change done in
          if returns_at_once change s then s else elim (answer_to r s) [
            | ok json ↦ followed
            | raise e ↦ record (after_request r s) { error = message e; success = "" }
          ]

      -- The handlers by their names.
      abbrev pub handle_create_user : Tab Row → Tab Row
      handle_create_user = handle create_user

      abbrev pub handle_delete_user : String → Tab Row → Tab Row
      handle_delete_user username = handle (delete_user username)

      abbrev pub handle_resolve_join_request : String → String → Tab Row → Tab Row
      handle_resolve_join_request id status = handle (resolve_join_request id status)

      abbrev pub handle_delete_topic : String → Tab Row → Tab Row
      handle_delete_topic topic = handle (delete_topic topic)

      abbrev pub handle_grant_access : Tab Row → Tab Row
      handle_grant_access = handle grant_access

      abbrev pub handle_revoke_access : String → String → Tab Row → Tab Row
      handle_revoke_access username topic = handle (revoke_access username topic)

      abbrev pub handle_create_invite : Tab Row → Tab Row
      handle_create_invite = handle create_invite

      abbrev pub handle_delete_invite : String → Tab Row → Tab Row
      handle_delete_invite token = handle (delete_invite token)
