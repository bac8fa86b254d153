-- ===== src/Commands.antt =====
-- web/src/app/SlashCommands.js: the slash commands, how they are read, and which of them the palette
-- offers. `lower` is `toLowerCase`.
mod Words
pub mod Parse
pub mod Input
pub mod Requests
unfoldable pub use Words.{
  is_white, is_empty, trim_start, trim_end, trim, words, unwords, no_white, all_white, is_word,
}
pub use Words.{trim-unwords, trim-append_white, words-unwords}
use text.Mathlib.Text.{starts_with}
use Prim.Native.String
use coop_messenger.Prelude.{
  String, Bool, true, false, Option, none, some, List, [], ◌∷◌, find, filter, ◌===◌, if◌then◌else◌,
}

-- A command, without the description that is shown.
pub record Command : Type 0 where
  pub name : String
  pub args : Option String
  pub server_side : Bool

abbrev pub gurr : Command
gurr = record { name = "gurr"; args = none; server_side = true }

abbrev pub status : Command
status = record { name = "status"; args = some "<text>"; server_side = true }

abbrev pub flieg : Command
flieg = record { name = "flieg"; args = none; server_side = true }

abbrev pub mitglieder : Command
mitglieder = record { name = "mitglieder"; args = none; server_side = false }

abbrev pub commands : List Command
commands = gurr ∷ status ∷ flieg ∷ mitglieder ∷ []

-- `s.slice(1)`
abbrev pub rest : String → String
rest String.[] = ""
rest (String.◌∷◌ c s) = s

-- The first of the parts, which there always is, and the others.
abbrev pub first_part : List String → String
first_part [] = ""
first_part (w ∷ ws) = w

abbrev pub other_parts : List String → List String
other_parts [] = []
other_parts (w ∷ ws) = ws

abbrev pub with_args : String → Option Command → Option (Command × String)
with_args args none = none
with_args args (some cmd) = some (cmd, args)

module _ (lower : String → String) where
  -- What the parts of the text, split, are read as.
  abbrev pub command_of_parts : List String → Option (Command × String)
  command_of_parts ws =
      with_args (unwords (other_parts ws))
        (find (λ (c : Command). c.name === lower (rest (first_part ws))) commands)

  unfoldable pub parse_command : String → Option (Command × String)
  unfolding trim words
  parse_command text = if starts_with text "/" then command_of_parts (words (trim text)) else none

  unfoldable pub filter_commands : String → List Command
  filter_commands input =
      if starts_with input "/"
      then filter (λ (c : Command). starts_with c.name (lower (rest input))) commands
      else []
