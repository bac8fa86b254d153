-- ===== src/Tests/Admin.antt =====
-- web/src/components/AdminPanel.jsx on data.
use coop_messenger.Prelude.{
  ℕ, ◌≡◌, refl, String, Option, none, some, List, [], ◌∷◌, eqb, if◌then◌else◌,
}
use coop_messenger.Errors.{AppError, Result, ok, raise, network_error}
use coop_messenger.Account.{Request, str}
use coop_messenger.Commands.{trim, trim_start, trim_end}
use coop_messenger.Commands as Commands
use coop_messenger.Admin.{Tab, delete_topic, change_request, handle}
use coop_messenger.Admin.Names.{split_topics, topics_clean}
use coop_messenger.Admin.Told.{listings, handle-told}
use coop_messenger.Admin.Topics.{Piece, split_topics-topics_clean}
use coop_messenger.Tests.{home, alice}

abbrev tab : Tab String
tab = record {
  users = [];
  topic_stats = "chat" ∷ [];
  join_requests = [];
  invites = [];
  username = "";
  password = "";
  topic = "";
  permission = "read-write";
  topics = "";
  max_uses = "";
  expires = "";
  error = "";
  success = "";
  requests = [];
}

abbrev same_text : String → String
same_text s = s

abbrev no_number : String → Option ℕ
no_number s = none

abbrev spoken : AppError → String
spoken e = "error"

-- Only the second request fails: that of the statistics.
abbrev flaky : ℕ → Request → Result (Option (List String))
flaky n r = if eqb n 1 then raise network_error else ok (some [])

abbrev deleting : Request
deleting = change_request home alice same_text no_number str (delete_topic "chat") tab

abbrev after : Tab String
after = handle home alice spoken flaky same_text no_number str (delete_topic "chat") tab

handle-told_example :
    (after.success ≡ "admin_chats_topic_deleted")
    × (after.error ≡ "")
    × (after.requests ≡ deleting ∷ listings home alice (delete_topic "chat"))
handle-told_example =
    handle-told home alice same_text no_number str spoken flaky (delete_topic "chat") tab refl

abbrev first_piece : Piece
first_piece = record { before = " "; name = "chat"; after = "" }

abbrev nothing_typed : Piece
nothing_typed = record { before = ""; name = ""; after = "" }

abbrev other_piece : Piece
other_piece = record { before = " "; name = "garden"; after = " " }

split_topics-topics_clean_example :
    (topics_clean " chat,, garden ," ≡ "chat,garden")
    × (split_topics (topics_clean " chat,, garden ,") ≡ "chat" ∷ "garden" ∷ [])
unfolding Commands.is_white
split_topics-topics_clean_example =
    split_topics-topics_clean first_piece (nothing_typed ∷ other_piece ∷ nothing_typed ∷ []) "chat"
      ("garden" ∷ []) refl refl
