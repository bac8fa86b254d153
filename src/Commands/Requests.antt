-- ===== src/Commands/Requests.antt =====
-- The requests of a chat's text field: `publish` of web/src/app/Api.js, and the typing event and the nudge of
-- web/src/components/ChatInput.jsx. `encode_base64` is `Base64.encode` of js-base64.
use coop_messenger.Prelude.{String, true, Option, none, some, [], ◌∷◌, ◌===◌, if◌then◌else◌}
use coop_messenger.Types.{Config, Session}
use coop_messenger.Db.{Dexie, Db}
use coop_messenger.Users.{get}
use coop_messenger.Utils.Urls.{◌&◌}
use coop_messenger.Utils.Auth.{Headers, with_header, maybe_with_auth, maybe_with_bearer_auth}
use coop_messenger.Account.{str, flag, Body, Request}

abbrev reply_field : Option String → Body
reply_field none = []
reply_field (some id) = ("reply_to", str id) ∷ []

module _ (d : Dexie) (encode_base64 : String → String) (config : Config) (session : Session) where
  -- `publish` with the options of `handleSend`.
  unfoldable pub publish : String → String → String → Option String → Db d → Request
  publish base_url topic message reply_to db = record {
    url = base_url;
    method = "PUT";
    headers = maybe_with_auth encode_base64 [] (get d config session base_url db);
    body = some (
        ("topic", str topic)
        ∷ ("message", str message)
        ∷ ("markdown", flag true)
        ∷ reply_field reply_to);
  }

module _ (config : Config) (session : Session) where
  abbrev coop_headers : Headers
  coop_headers =
      with_header (maybe_with_bearer_auth [] session.token) "Content-Type" "application/json"

  -- The request of a typing event that is due.
  unfoldable pub typing_request : String → Request
  typing_request topic = record {
    url = config.base_url & "/v1/coop/typing";
    method = "POST";
    headers = coop_headers;
    body = some (("topic", str topic) ∷ []);
  }

  -- What the nudge button sends; whatever comes back changes nothing.
  unfoldable pub handle_nudge : String → Option Request
  handle_nudge topic =
      if topic === ""
      then none
      else some (record {
        url = config.base_url & "/v1/coop/nudge";
        method = "POST";
        headers = coop_headers;
        body = some (("topic", str topic) ∷ []);
      })
