-- ===== src/Chat/Reactions.antt =====
-- web/src/components/ChatView.jsx: handleReactionToggle. The reactions of a message are shown at once
-- as they will be, and the request is sent; whether it fails changes nothing here.
pub mod Tally
use coop_messenger.Prelude.{
  ℕ, ◌+◌, ◌-◌, String, Bool, true, false, not, Option, none, some, List, [], ◌∷◌, ◌++◌, map, filter,
  find, leb, ◌===◌, if◌then◌else◌,
}
use coop_messenger.Types.{User, Subscription}
use coop_messenger.JsObject.{lookup, assign}
use coop_messenger.Utils.Urls.{◌&◌}
use coop_messenger.Utils.Auth.{with_header, maybe_with_auth}
use coop_messenger.Account.{Request, str}

-- A user is the name in the session, null for none.
pub record Reaction : Type 0 where
  pub emoji : String
  pub count : ℕ
  pub users : List (Option String)
  pub reacted : Bool

-- `a === b` on names that may be null
abbrev pub same_user : Option String → Option String → Bool
same_user none none = true
same_user none (some b) = false
same_user (some a) none = false
same_user (some a) (some b) = a === b

module _ (username : Option String) (emoji : String) where
  abbrev pub is_emoji : Reaction → Bool
  is_emoji r = r.emoji === emoji

  abbrev pub with_own : Reaction → Reaction
  with_own r = record r { count = r.count + 1; reacted = true; users = r.users ++ username ∷ [] }

  abbrev pub without_own : ℕ → Reaction → Reaction
  without_own new_count r = record r {
    count = new_count;
    reacted = false;
    users = filter (λ u. not (same_user u username)) r.users;
  }

  abbrev pub first_reaction : Reaction
  first_reaction = record { emoji = emoji; count = 1; users = username ∷ []; reacted = true }

  -- `newCount <= 0` is tested as `count <= 1`.
  unfoldable pub toggle : List Reaction → List Reaction
  toggle current = elim (find is_emoji current) [
    | none ↦ current ++ first_reaction ∷ []
    | some existing ↦
        if existing.reacted
        then (if leb existing.count 1
            then filter (λ r. not (is_emoji r)) current
            else map (λ r. if is_emoji r then without_own (existing.count - 1) r else r) current)
        else map (λ r. if is_emoji r then with_own r else r) current
  ]

-- `prev[messageId] || []`; message ids are not names that objects inherit.
abbrev pub reactions_of : String → List (String × List Reaction) → List Reaction
reactions_of message_id reactions = elim (lookup message_id reactions) [ none ↦ [] | some l ↦ l ]

-- The handler, with the request that it sends.
unfoldable pub handle_reaction_toggle :
    (String → String)
    → Option Subscription
    → Option User
    → Option String
    → String
    → String
    → List (String × List Reaction)
    → List (String × List Reaction) × Option Request
unfolding toggle
handle_reaction_toggle encode_base64 none user username message_id emoji reactions =
    (reactions, none)
handle_reaction_toggle encode_base64 (some s) user username message_id emoji reactions = (
  assign message_id (toggle username emoji (reactions_of message_id reactions)) reactions,
  some (record {
    url = s.base_url & "/v1/coop/messages/" & message_id & "/reactions";
    method = "POST";
    headers = maybe_with_auth encode_base64 (("Content-Type", "application/json") ∷ []) user;
    body = some (("emoji", str emoji) ∷ []);
  }),
)
