-- ===== src/Utils/Urls.antt =====
-- web/src/app/utils.js: the URLs of the server, and the short form of a topic URL.
use Prim.Native.String
use text.Mathlib.Text.{starts_with}
use coop_messenger.Prelude.{
  ℕ, zero, suc, String, Bool, Option, none, some, ◌===◌, includes, truthy, if◌then◌else◌,
}
use coop_messenger.Types.{Config, Subscription}

infixr 65 ◌&◌
-- String concatenation.
abbrev pub ◌&◌ : String → String → String
a & b = String.◌++◌ a b

-- `s.replaceAll(pattern, …)`: `rule` says whether the pattern matches at the head of a text, with
-- the length of the match less one and what replaces it. `skip` characters are part of a match.
replace_from : (String → Option (ℕ × String)) → ℕ → String → String
replace_from rule skip String.[] = ""
replace_from rule (suc skip) (String.◌∷◌ c s) = replace_from rule skip s
replace_from rule zero (String.◌∷◌ c s) = elim (rule (String.◌∷◌ c s)) [
  | none ↦ String.◌∷◌ c (replace_from rule zero s)
  | some (k, out) ↦ out & replace_from rule k s
]

-- `/https?:\/\//g`, replaced by nothing
scheme_rule : String → Option (ℕ × String)
scheme_rule s =
    if starts_with s "https://"
    then some (7, "")
    else if starts_with s "http://"
    then some (6, "")
    else none

https_rule : String → Option (ℕ × String)
https_rule s = if starts_with s "https://" then some (7, "wss://") else none

http_rule : String → Option (ℕ × String)
http_rule s = if starts_with s "http://" then some (6, "ws://") else none

unfoldable pub short_url : String → String
unfolding replace_from scheme_rule
short_url url = replace_from scheme_rule 0 url

unfoldable pub expand_secure_url : String → String
expand_secure_url url = "https://" & url

unfoldable pub topic_url : String → String → String
topic_url base_url topic = base_url & "/" & topic

unfoldable pub topic_url_ws : String → String → String
unfolding topic_url replace_from https_rule http_rule
topic_url_ws base_url topic =
    replace_from http_rule 0 (replace_from https_rule 0 (topic_url base_url topic & "/ws"))

unfoldable pub topic_url_json : String → String → String
unfolding topic_url
topic_url_json base_url topic = topic_url base_url topic & "/json"

unfoldable pub topic_url_json_poll : String → String → String
unfolding topic_url_json
topic_url_json_poll base_url topic = topic_url_json base_url topic & "?poll=1"

unfoldable pub topic_url_json_poll_with_since : String → String → String → String
unfolding topic_url_json
topic_url_json_poll_with_since base_url topic since =
    topic_url_json base_url topic & "?poll=1&since=" & since

unfoldable pub topic_url_auth : String → String → String
unfolding topic_url
topic_url_auth base_url topic = topic_url base_url topic & "/auth"

unfoldable pub topic_short_url : String → String → String
unfolding short_url topic_url
topic_short_url base_url topic = short_url (topic_url base_url topic)

unfoldable pub disallowed_topic : Config → String → Bool
disallowed_topic config topic = includes topic config.disallowed_topics

unfoldable pub topic_display_name : Config → Subscription → String
unfolding topic_short_url
topic_display_name config s = elim s.display_name [
  | none ↦ if s.base_url === config.base_url then s.topic else topic_short_url s.base_url s.topic
  | some name ↦
      if truthy (some name)
      then name
      else if s.base_url === config.base_url
      then s.topic
      else topic_short_url s.base_url s.topic
]
