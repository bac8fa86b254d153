-- ===== src/Commands/Input.antt =====
-- web/src/components/ChatInput.jsx: the text field of a chat, with its palette of slash commands. `lower` is
-- `toLowerCase`, `topic` the topic of the open chat, and `now` what `Date.now()` gives.
pub mod Palette
pub mod Completion
pub mod Throttle
use coop_messenger.Prelude.{
  ℕ, ◌≡◌, zero, suc, ◌+◌, ◌-◌, String, Bool, true, false, not, ◌&&◌, ◌||◌, Option, none, some, List,
  [], ◌∷◌, length, ltb, eqb, min, ◌===◌, if◌then◌else◌,
}
use Prim.Native.String
use text.Mathlib.Text.{starts_with}
use coop_messenger.Commands.{
  Command, commands, parse_command, filter_commands, is_empty, trim, words,
}

abbrev pub typing_interval : ℕ
typing_interval = 3000

-- The state of the component; of the message that is replied to, its id.
pub record Input : Type 0 where
  pub message : String
  pub error : Bool
  pub send_success : Bool
  pub success_timer : Option ℕ
  pub last_typing : ℕ
  pub reply_to : Option String
  pub filtered : List Command
  pub command_index : ℕ

-- What `handleSend` waits for: `executeServerCommand` with its arguments, `onLocalCommand`, nothing, or
-- `onSend` with the text and the id of the message replied to.
pub data Sending : Type 0 where
  server_command : String → String → String → Sending
  local_command : String → Sending
  no_command : Sending
  publish : String → Option String → Sending

-- What a key sets off.
pub data Effect : Type 0 where
  prevent_default : Effect
  send : Sending → Effect
  typing : String → Effect

pub data Key : Type 0 where
  arrow_down : Key
  arrow_up : Key
  tab : Key
  enter : Key
  other : Key

abbrev pub is_enter : Key → Bool
is_enter enter = true
is_enter arrow_down = false
is_enter arrow_up = false
is_enter tab = false
is_enter other = false

-- `xs[i]`
abbrev pub get_elem {ℓ} : {A : Type ℓ} → List A → ℕ → Option A
get_elem [] i = none
get_elem (x ∷ xs) zero = some x
get_elem (x ∷ xs) (suc i) = get_elem xs i

-- The time of the last typing event, and the event that is sent.
unfoldable pub send_typing_event : String → ℕ → ℕ → ℕ × List Effect
send_typing_event topic now last_typing =
    if topic === ""
    then (last_typing, [])
    else if ltb (now - last_typing) typing_interval
    then (last_typing, [])
    else (now, typing topic ∷ [])

-- `/${cmd.name} `
abbrev pub completed : Command → String
completed cmd = String.◌∷◌ "/" (String.◌++◌ cmd.name " ")

unfoldable pub handle_command_select : Command → Input → Input
handle_command_select cmd s = record s { message = completed cmd; filtered = [] }

-- Tab, or Enter on a single word, while the palette is open.
abbrev pub complete : Option Command → Input → Input
complete none s = s
complete (some cmd) s = record s { message = completed cmd; filtered = [] }

-- The branches on a command.
abbrev pub sending_of : String → Command → String → Sending
sending_of topic cmd args =
    if cmd.server_side
    then server_command cmd.name topic args
    else if cmd.name === "mitglieder"
    then local_command "mitglieder"
    else no_command

module _ (lower : String → String) where
  unfoldable pub handle_change : String → Input → Input
  handle_change val s =
      if starts_with val "/"
      then record s { message = val; filtered = filter_commands lower val; command_index = 0 }
      else record s { message = val; filtered = [] }

abbrev pub sends_of : Option Sending → List Effect
sends_of none = []
sends_of (some sending) = send sending ∷ []

module _ (lower : String → String) (topic : String) where
  -- `handleSend` up to where it waits.
  unfoldable pub handle_send : Input → Option Sending
  handle_send s =
      if is_empty (trim s.message) then none else elim (parse_command lower (trim s.message)) [
        | some (cmd, args) ↦ some (sending_of topic cmd args)
        | none ↦ some (publish (trim s.message) s.reply_to)
      ]

  -- The keys that the palette does not take.
  unfoldable pub handle_other_key : ℕ → Key → Bool → Input → Input × List Effect
  unfolding handle_send send_typing_event
  handle_other_key now key shift s =
      let sent = send_typing_event topic now s.last_typing in
      if is_enter key && not shift
      then (s, prevent_default ∷ sends_of (handle_send s))
      else (record s { last_typing = sent.0 }, sent.1)

  unfoldable pub handle_key_down : ℕ → Key → Bool → Input → Input × List Effect
  unfolding handle_other_key
  handle_key_down now arrow_down shift s =
      if ltb 0 (length s.filtered)
      then (
        record s { command_index = min (s.command_index + 1) (length s.filtered - 1) },
        prevent_default ∷ [],
      )
      else handle_other_key now arrow_down shift s
  handle_key_down now arrow_up shift s =
      if ltb 0 (length s.filtered)
      then (record s { command_index = s.command_index - 1 }, prevent_default ∷ [])
      else handle_other_key now arrow_up shift s
  handle_key_down now tab shift s =
      if ltb 0 (length s.filtered)
      then (complete (get_elem s.filtered s.command_index) s, prevent_default ∷ [])
      else handle_other_key now tab shift s
  handle_key_down now enter shift s =
      if ltb 0 (length s.filtered) && (not shift && eqb (length (words (trim s.message))) 1)
      then (complete (get_elem s.filtered s.command_index) s, prevent_default ∷ [])
      else handle_other_key now enter shift s
  handle_key_down now other shift s = handle_other_key now other shift s

-- `handleSend` from where it waited: whether it failed, and the timer that is started.
unfoldable pub finish_send : Sending → Bool → ℕ → Input → Input
finish_send sending false timer s = record s { error = true }
finish_send (server_command name topic args) true timer s = record s { message = ""; filtered = [] }
finish_send (local_command name) true timer s = record s { message = ""; filtered = [] }
finish_send no_command true timer s = record s { message = ""; filtered = [] }
finish_send (publish text reply_to) true timer s = record s {
  message = "";
  reply_to = none;
  send_success = true;
  success_timer = some timer;
}

abbrev pub success_over : Input → Input
success_over s = record s { send_success = false }

abbrev pub close_error : Input → Input
close_error s = record s { error = false }

abbrev pub set_reply_to : Option String → Input → Input
set_reply_to reply_to s = record s { reply_to = reply_to }

abbrev pub empty_input : Input
empty_input = record {
  message = "";
  error = false;
  send_success = false;
  success_timer = none;
  last_typing = 0;
  reply_to = none;
  filtered = [];
  command_index = 0;
}

-- What can happen to the field, in any order: several messages may be on their way at once.
pub data Step (lower : String → String) (topic : String) : Input → Input → Type 0 where
  changed : (s : Input) (val : String) → Step lower topic s (handle_change lower val s)
  key_down :
      (s : Input) (now : ℕ) (key : Key) (shift : Bool)
      → Step lower topic s (handle_key_down lower topic now key shift s).0
  selected :
      (s : Input) (i : ℕ) (cmd : Command)
      → get_elem s.filtered i ≡ some cmd
      → Step lower topic s (handle_command_select cmd s)
  finished :
      (s : Input) (sending : Sending) (ok : Bool) (timer : ℕ)
      → Step lower topic s (finish_send sending ok timer s)
  faded : (s : Input) → Step lower topic s (success_over s)
  closed : (s : Input) → Step lower topic s (close_error s)
  replying : (s : Input) (reply_to : Option String) → Step lower topic s (set_reply_to reply_to s)

pub data Reach (lower : String → String) (topic : String) : Input → Type 0 where
  mounted : Reach lower topic empty_input
  next : {s t : Input} → Reach lower topic s → Step lower topic s t → Reach lower topic t
