-- ===== src/Tests/Chats.antt =====
-- web/src/components/ChatView.jsx: reactions, typing users and rows of the chat of `some_db`, whose
-- days are of one kind.
use coop_messenger.Prelude.{
  ℕ, ◌+◌, ◌≡◌, refl, String, Bool, true, false, ◌&&◌, none, some, List, [], ◌∷◌, map, count,
  includes, arith,
}
use coop_messenger.Events.{event_message}
use coop_messenger.Types.{Message}
use coop_messenger.Db.{assoc_dexie}
use coop_messenger.Table.Order.{sort, sort-IsTimeOrder, ascending, none_newer}
use coop_messenger.Subscriptions.{in_subscription}
use coop_messenger.Subscriptions.Stored.Laws.{stored}
use coop_messenger.Subscriptions.Reads.{get_notifications}
use coop_messenger.Chat.Reactions.{Reaction, toggle}
use coop_messenger.Chat.Reactions.Tally.{IsTally, toggle-IsTally}
use coop_messenger.Chat.Typing.{
  SocialEvent, Typing, sender_of, timer_fired, quiet, handle_social, opened, next, heard,
}
use coop_messenger.Chat.Typing.Timers.{Reach-fades}
use coop_messenger.Chat.Messages.{is_shown, visible, rows}
use coop_messenger.Chat.Messages.Groups.{AreGroups, starts, rows-AreGroups}
use coop_messenger.Chat.Messages.Pages.{hidden, get_notifications-visible}
use coop_messenger.Tests.{alice, sent, chat, some_db}

-- Alice and Bob have reacted with one emoji, Bob with another.
abbrev reactions : List Reaction
reactions =
    record { emoji = "+1"; count = 2; users = some "alice" ∷ some "bob" ∷ []; reacted = true }
    ∷ record { emoji = "heart"; count = 1; users = some "bob" ∷ []; reacted = false }
    ∷ []

tallied : IsTally (some "alice") reactions
tallied = ((omega arith, refl, refl, refl), refl, ((omega arith, refl, refl, refl), refl, tt))

toggle-IsTally_example : IsTally (some "alice") (toggle (some "alice") "heart" reactions)
toggle-IsTally_example = toggle-IsTally (some "alice") "heart" reactions tallied

-- Bob types in the chat.
abbrev bob_types : SocialEvent
bob_types = record { event = "coop_typing"; topic = "chat"; sender = some "bob" }

abbrev typing : Typing
typing = handle_social "chat" alice 7 bob_types quiet

Reach-fades_example :
    (t : ℕ) × (sender_of t typing.pending ≡ some "bob")
    × (includes "bob" (timer_fired t typing).users ≡ false)
unfolding handle_social
Reach-fades_example =
    Reach-fades alice {st = typing} (next (opened "chat") (heard quiet 7 bob_types refl)) "bob" refl
      refl

-- Three messages, the last one after the others.
abbrev messages : List Message
messages =
    sent "m1" event_message 100 none
    ∷ sent "m2" event_message 200 none
    ∷ sent "m3" event_message 900 none
    ∷ []

abbrev day : ℕ → String
day time = "2026-01-01"

rows-AreGroups_example :
    (map (λ r. r.message) (rows day messages) ≡ messages)
    × AreGroups day (rows day messages)
    × (starts (rows day messages) ≡ true)
rows-AreGroups_example = rows-AreGroups day messages

get_notifications-visible_example :
    let ms : List Message = get_notifications assoc_dexie sort chat.id some_db in
    (ascending (visible 1 ms) ≡ true)
    × (none_newer (visible 1 ms) (hidden 1 ms) ≡ true)
    × ((p : Message → Bool)
        → count p (visible 1 ms) + count p (hidden 1 ms)
          ≡ stored assoc_dexie (λ m. in_subscription chat.id m && (is_shown m && p m)) some_db)
get_notifications-visible_example =
    get_notifications-visible assoc_dexie sort sort-IsTimeOrder chat.id 1 some_db
