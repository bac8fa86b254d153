-- ===== src/Api/Poll.antt =====
-- What a poll of a topic gives.
use coop_messenger.Prelude.{ℕ, ◌≤◌, ◌≡◌, ◌⊎◌, ap, sym, ◌∙◌, true, false, List, [], map, arith, ◌↔◌}
use coop_messenger.Types.{Message}
use coop_messenger.Utils.Lines.{Bytes, Text, concat, lines_from, fetch_lines-lines_from}
use coop_messenger.Errors.{Result, ok}
use coop_messenger.Api.{parse_lines, poll, topic_auth}

-- A poll depends on the decoded chunks only by the text that they make together.
poll_chunks :
    (decode : Bytes → Text) (parse : Text → Result Message) (reads reads' : List Bytes)
    → concat (map decode reads) ≡ concat (map decode reads')
    → poll decode parse reads ≡ poll decode parse reads'
unfolding poll
poll_chunks decode parse reads reads' e = ap (parse_lines parse) (
    fetch_lines-lines_from decode reads
    ∙ (ap (lines_from []) e ∙ sym (fetch_lines-lines_from decode reads')))

-- Access is granted exactly on a status from 200 to 299, and denied exactly on 401 and 403.
topic_auth_iff :
    (status : ℕ)
    → ((topic_auth status ≡ ok true) ↔ ((200 ≤ status) × (status ≤ 299)))
      × ((topic_auth status ≡ ok false) ↔ ((status ≡ 401) ⊎ (status ≡ 403)))
unfolding topic_auth
topic_auth_iff status = ground arith
