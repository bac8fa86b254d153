-- ===== src/Account/Social.antt =====
-- web/src/app/AccountApi.js: the requests about contacts, direct messages, groups and topics.
-- `encodeURIComponent` is a parameter.
use coop_messenger.Prelude.{String, none, some, List, [], ◌∷◌}
use coop_messenger.Types.{Config, Session}
use coop_messenger.Utils.Urls.{◌&◌}
use coop_messenger.Account.{str, strs, Request, authorized, request, coop_url}

module _ (config : Config) (session : Session) where
  unfoldable pub get_contacts : Request
  unfolding authorized
  get_contacts = request session "GET" (coop_url config "contacts") none

  unfoldable pub get_contact_requests : Request
  unfolding authorized
  get_contact_requests = request session "GET" (coop_url config "contacts/requests") none

  unfoldable pub add_contact : String → Request
  unfolding authorized
  add_contact username =
      request session "POST" (coop_url config "contacts") (some (("username", str username) ∷ []))

  unfoldable pub start_dm : String → Request
  unfolding authorized
  start_dm username =
      request session "POST" (coop_url config "dm") (some (("username", str username) ∷ []))

  unfoldable pub get_dms : Request
  unfolding authorized
  get_dms = request session "GET" (coop_url config "dm") none

  unfoldable pub create_group : String → List String → Request
  unfolding authorized
  create_group name members =
      request session "POST" (coop_url config "groups")
        (some (("name", str name) ∷ ("members", strs members) ∷ []))

-- `encodeURIComponent`
module _ (encode : String → String) (config : Config) (session : Session) where
  unfoldable pub accept_contact : String → Request
  unfolding authorized
  accept_contact username =
      request session "PUT" (coop_url config "contacts/" & encode username)
        (some (("status", str "accepted") ∷ []))

  unfoldable pub reject_contact : String → Request
  unfolding authorized
  reject_contact username =
      request session "PUT" (coop_url config "contacts/" & encode username)
        (some (("status", str "rejected") ∷ []))

  unfoldable pub remove_contact : String → Request
  unfolding authorized
  remove_contact username =
      request session "DELETE" (coop_url config "contacts/" & encode username) none

  unfoldable pub block_contact : String → Request
  unfolding authorized
  block_contact username =
      request session "POST" (coop_url config "contacts/" & encode username & "/block") none

  unfoldable pub search_users : String → Request
  unfolding authorized
  search_users query = request session "GET" (coop_url config "users/search?q=" & encode query) none

  unfoldable pub get_topic_meta : String → Request
  unfolding authorized
  get_topic_meta topic =
      request session "GET" (coop_url config "topics/" & encode topic & "/meta") none

  unfoldable pub update_topic_meta : String → String → String → Request
  unfolding authorized
  update_topic_meta topic display_name description =
      request session "PATCH" (coop_url config "topics/" & encode topic & "/meta")
        (some (("display_name", str display_name) ∷ ("description", str description) ∷ []))
