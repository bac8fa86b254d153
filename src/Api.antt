-- ===== src/Api.antt =====
-- web/src/app/Api.js: polling a topic and checking access to it. `parse` is `JSON.parse` of a line.
pub mod Poll
use coop_messenger.Prelude.{
  ℕ, String, Bool, true, false, ◌&&◌, ◌||◌, not, Option, none, some, List, [], ◌∷◌, ◌===◌, eqb, leb,
  truthy, if◌then◌else◌,
}
use coop_messenger.Prelude.Decimal.{to_string}
use coop_messenger.Types.{Message}
use coop_messenger.Utils.Urls.{◌&◌, topic_url_json_poll, topic_url_json_poll_with_since}
use coop_messenger.Utils.Lines.{Bytes, Text, fetch_lines}
use coop_messenger.Errors.{Result, ok, raise, AppError, error, ◌>>=◌}

unfoldable pub poll_url : String → String → Option String → String
poll_url base_url topic none = topic_url_json_poll base_url topic
poll_url base_url topic (some since) =
    if truthy (some since)
    then topic_url_json_poll_with_since base_url topic since
    else topic_url_json_poll base_url topic

-- The loop over the lines; a line that is not JSON throws.
unfoldable pub parse_lines : (Text → Result Message) → List Text → Result (List Message)
parse_lines parse [] = ok []
parse_lines parse (line ∷ lines) = do
  message ← parse line
  messages ← parse_lines parse lines
  ok (if message.id === "" then messages else message ∷ messages)

-- `poll`, on the chunks of the response, as they are read.
unfoldable pub poll : (Bytes → Text) → (Text → Result Message) → List Bytes → Result (List Message)
unfolding parse_lines
poll decode parse reads = parse_lines parse (fetch_lines decode reads)

-- `topicAuth`, on the status of the response.
unfoldable pub topic_auth : ℕ → Result Bool
topic_auth status =
    if leb 200 status && leb status 299
    then ok true
    else if eqb status 401 || eqb status 403
    then ok false
    else raise (error ("Unexpected server response " & to_string status))
