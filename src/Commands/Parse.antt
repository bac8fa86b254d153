-- ===== src/Commands/Parse.antt =====
-- What a typed command is read as.
use text.Mathlib.Text.{starts_with}
use text.Mathlib.TextLemmas.{nil-append, cons-append}
use text.Mathlib.TextPositions.{starts_with-append}
use Prim.Native.String
use coop_messenger.Prelude.{
  ◌≡◌, refl, sym, String, true, Option, List, [], ◌∷◌, find, all, ◌===◌, ◌∙◌, ap,
}
use coop_messenger.Commands.{
  Command, commands, with_args, parse_command, is_white, no_white, all_white, is_word, unwords,
  trim-unwords, words-unwords,
}

-- The command of a name.
abbrev pub named : String → Option Command
named name = find (λ (c : Command). c.name === name) commands

is_word_slash : (name : String) → no_white name ≡ true → is_word (String.◌∷◌ "/" name) ≡ true
unfolding is_white
is_word_slash name h = h

unwords_slash :
    (name : String) (args : List String)
    → unwords (String.◌∷◌ "/" name ∷ args) ≡ String.◌∷◌ "/" (unwords (name ∷ args))
unfolding unwords
unwords_slash name [] = refl
unwords_slash name (w ∷ ws) = cons-append "/" name (String.◌∷◌ " " (unwords (w ∷ ws)))

starts_with_slash : (s : String) → starts_with (String.◌∷◌ "/" s) "/" ≡ true
starts_with_slash s =
    ap (λ t. starts_with t "/") (sym (cons-append "/" "" s ∙ ap (String.◌∷◌ "/") (nil-append s)))
    ∙ starts_with-append "/" s

starts_with_slash-unwords :
    (name : String) (args : List String) (after : String)
    → starts_with (String.◌++◌ (unwords (String.◌∷◌ "/" name ∷ args)) after) "/" ≡ true
starts_with_slash-unwords name args after =
    rw (unwords_slash name args, cons-append "/" (unwords (name ∷ args)) after)
      (starts_with_slash (String.◌++◌ (unwords (name ∷ args)) after))

-- A slash with a name behind it, then words of any number, then white space of any kind: this is read
-- as the command of that name in lower case with the words as its arguments, one space between two
-- of them; where there is no such command, it is no command.
pub parse_command-unwords :
    (lower : String → String) (name : String) (args : List String) (after : String)
    → no_white name ≡ true
    → all is_word args ≡ true
    → all_white after ≡ true
    → parse_command lower (String.◌++◌ (unwords (String.◌∷◌ "/" name ∷ args)) after)
      ≡ with_args (unwords args) (named (lower name))
unfolding parse_command
parse_command-unwords lower name args after h a b =
    rw
      (
        starts_with_slash-unwords name args after,
        trim-unwords (String.◌∷◌ "/" name) args after (is_word_slash name h) a b,
        words-unwords (String.◌∷◌ "/" name) args (is_word_slash name h) a,
      )
      refl
