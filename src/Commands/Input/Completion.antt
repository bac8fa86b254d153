-- ===== src/Commands/Input/Completion.antt =====
-- What completing a slash command from the palette, and Enter behind it, lead to.
use text.Mathlib.TextLemmas.{append-nil, cons-append}
use coop_messenger.Prelude.{
  ℕ, ◌≡◌, refl, sym, ap, ◌∙◌, String, Bool, true, false, some, [], ◌∷◌, length, ltb, arith,
}
use coop_messenger.Commands.{
  Command, with_args, parse_command, trim, unwords, is_white, no_white, trim-unwords,
}
use coop_messenger.Commands.Parse.{parse_command-unwords}
use coop_messenger.Commands.Input.{
  Input, tab, enter, prevent_default, send, sending_of, sends_of, get_elem, completed, handle_send,
  handle_other_key, handle_key_down, Reach,
}
use coop_messenger.Commands.Input.Palette.{
  keeps_names, IsListed, IsReady, Reach-IsReady, listed_at, get_elem_in_range,
}

module _ (lower : String → String) (topic : String) where
  -- Trimmed, the completed text is the command; read, it is the command without arguments.
  trim-completed :
      (c : Command) → no_white c.name ≡ true → trim (completed c) ≡ String.◌∷◌ "/" c.name
  unfolding unwords is_white
  trim-completed c w =
      ap trim (sym (cons-append "/" c.name " "))
      ∙ trim-unwords (String.◌∷◌ "/" c.name) [] " " w refl refl

  parse_command_completed :
      (c : Command) → IsListed lower c → parse_command lower (String.◌∷◌ "/" c.name) ≡ some (c, "")
  unfolding unwords
  parse_command_completed c l =
      ap (parse_command lower) (sym (append-nil (String.◌∷◌ "/" c.name)))
      ∙ parse_command-unwords lower c.name [] "" l.unbroken refl refl
      ∙ ap (with_args "") l.found

  handle_send-completed :
      (c : Command) (s : Input)
      → IsListed lower c
      → s.message ≡ completed c
      → handle_send lower topic s ≡ some (sending_of topic c "")
  unfolding handle_send
  handle_send-completed c s l e =
      rw (e, trim-completed c l.unbroken, parse_command_completed c l) refl

  tab_completes :
      (s : Input) (c : Command) (now : ℕ) (shift : Bool)
      → ltb 0 (length s.filtered) ≡ true
      → get_elem s.filtered s.command_index ≡ some c
      → handle_key_down lower topic now tab shift s
        ≡ (record s { message = completed c; filtered = [] }, prevent_default ∷ [])
  unfolding handle_key_down
  tab_completes s c now shift o at = rw (o, at) refl

  enter_sends :
      (s : Input) (c : Command) (later : ℕ)
      → IsListed lower c
      → handle_key_down lower topic later enter false
          (record s { message = completed c; filtered = [] })
        ≡ (
          record s { message = completed c; filtered = [] },
          prevent_default ∷ send (sending_of topic c "") ∷ [],
        )
  unfolding handle_key_down handle_other_key
  enter_sends s c later l =
      ap
        (λ sending.
          (record s { message = completed c; filtered = [] }, prevent_default ∷ sends_of sending))
        (handle_send-completed c (record s { message = completed c; filtered = [] }) l refl)

  -- While the palette is open, there is a command at the index, whatever has happened to the field
  -- before; Tab closes the palette, and Enter right after it runs that command, without arguments.
  pub Reach-tab :
      keeps_names lower ≡ true
      → (s : Input) → Reach lower topic s
      → ltb 0 (length s.filtered) ≡ true
      → (now later : ℕ) (shift : Bool)
      → let t : Input = (handle_key_down lower topic now tab shift s).0 in
        (c : Command) × (get_elem s.filtered s.command_index ≡ some c)
        × (t.filtered ≡ [])
        × (handle_key_down lower topic later enter false t
            ≡ (t, prevent_default ∷ send (sending_of topic c "") ∷ []))
  Reach-tab h s r o now later shift =
      let ready : IsReady lower s = Reach-IsReady lower topic h s r in
      let (c, at) =
        get_elem_in_range lower s.filtered s.command_index (ground (arith, ready.in_range)) in
      rw (tab_completes s c now shift o at) (
        c,
        at,
        refl,
        enter_sends s c later (listed_at lower s.filtered s.command_index c ready.listed at),
      )
