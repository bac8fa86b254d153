-- ===== src/Tests/Inputs.antt =====
-- web/src/components/ChatInput.jsx, web/src/components/Notifications.jsx and web/src/components/App.jsx on what a user does.
use coop_messenger.Prelude.{◌≡◌, refl, String, false, none, some, [], ◌∷◌}
use coop_messenger.Types.{Message, Action}
use coop_messenger.Db.{assoc_dexie}
use coop_messenger.Commands.{is_white, filter_commands, Command, status, unwords, parse_command}
use coop_messenger.Commands.Parse.{parse_command-unwords}
use coop_messenger.Commands.Input.{
  Input, tab, enter, prevent_default, send, sending_of, get_elem, handle_change, handle_key_down,
  empty_input, mounted, next, changed,
}
use coop_messenger.Commands.Input.Completion.{Reach-tab}
use coop_messenger.Notifications.{responded, finish_http_action}
use coop_messenger.Notifications.Actions.{settled, finish_http_action-settled}
use coop_messenger.Tests.{row, chat, some_db}

-- The names are typed in lower case.
abbrev same_case : String → String
same_case s = s

parse_command-unwords_example :
    parse_command same_case "/status im Garten " ≡ some (status, "im Garten")
unfolding is_white unwords
parse_command-unwords_example =
    parse_command-unwords same_case "status" ("im" ∷ "Garten" ∷ []) " " refl refl refl

abbrev slash_typed : Input
slash_typed = handle_change same_case "/fl" empty_input

Reach-tab_example :
    let t : Input = (handle_key_down same_case "chat" 100 tab false slash_typed).0 in
    (c : Command) × (get_elem slash_typed.filtered slash_typed.command_index ≡ some c)
    × (t.filtered ≡ [])
    × (handle_key_down same_case "chat" 200 enter false t
        ≡ (t, prevent_default ∷ send (sending_of "chat" c "") ∷ []))
unfolding handle_change filter_commands
Reach-tab_example =
    Reach-tab same_case "chat" refl slash_typed (next mounted (changed empty_input "/fl")) refl 100
      200 false

abbrev answer : Action
answer = record {
  id = "a1";
  action = "http";
  label = "Answer";
  url = "https://coop/answer";
  clear = false;
  method = none;
  headers = none;
  body = none;
  value = none;
  progress = none;
  error = none;
}

-- The first message, unread, as its button saw it.
abbrev asked : Message
asked = record (row "m1" 100 "s1" chat.id) { actions = some (answer ∷ []) }

finish_http_action-settled_example :
    assoc_dexie.notifications.get "m1"
      (finish_http_action assoc_dexie asked answer (responded 500) some_db).0.notifications
    ≡ some (settled asked answer (responded 500))
finish_http_action-settled_example =
    finish_http_action-settled assoc_dexie asked answer (responded 500) some_db "m1"
