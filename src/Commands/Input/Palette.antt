-- ===== src/Commands/Input/Palette.antt =====
-- The palette of slash commands: what it offers, and what its completion leads to.
use text.Mathlib.Text.{starts_with}
use mathlib.Core.Path.{subst}
use mathlib.Core.Option.{some_inj, none-ne-some}
use coop_messenger.Prelude.{
  ℕ, zero, suc, ◌≡◌, refl, ap, ◌∙◌, String, Bool, true, false, not, ◌&&◌, ◌||◌, Option, none, some,
  List, [], ◌∷◌, all, filter, length, ltb, eqb, ◌===◌, arith, eq_iff, Bool-cases, inl, inr,
}
use coop_messenger.Commands.{
  gurr, status, flieg, mitglieder, rest, Command, commands, filter_commands, trim, words, is_white,
  no_white,
}
use coop_messenger.Commands.Parse.{named}
use coop_messenger.Commands.Input.{
  Input, Key, arrow_down, arrow_up, tab, enter, other, server_command, local_command, no_command,
  publish, is_enter, get_elem, complete, handle_change, handle_other_key, handle_key_down,
  handle_command_select, finish_send, Step, changed, key_down, selected, finished, faded, closed,
  replying, Reach, mounted, next,
}

-- `toLowerCase` leaves the names of the commands as they are.
abbrev pub keeps_names : (String → String) → Bool
keeps_names lower = all (λ (c : Command). lower c.name === c.name) commands

module _ (lower : String → String) where
  -- Typing the name of the command finds it.
  pub record IsListed (c : Command) : Type 0 where
    pub found : named (lower c.name) ≡ some c
    pub unbroken : no_white c.name ≡ true

  abbrev pub AllListed : List Command → Type 0
  AllListed [] = Unit
  AllListed (c ∷ cs) = IsListed c × AllListed cs

  pub record IsReady (s : Input) : Type 0 where
    pub listed : AllListed s.filtered
    pub in_range : (ltb s.command_index (length s.filtered) || eqb (length s.filtered) 0) ≡ true

  pub listed_at :
      (cs : List Command) (i : ℕ) (c : Command) → AllListed cs → get_elem cs i ≡ some c → IsListed c
  listed_at [] i c a e = absurd (none-ne-some c e)
  listed_at (d ∷ cs) zero c a e = subst IsListed (some_inj.0 e) a.0
  listed_at (d ∷ cs) (suc i) c a e = listed_at cs i c a.1 e

  kept :
      (c : Command)
      → no_white c.name ≡ true
      → named c.name ≡ some c
      → lower c.name === c.name ≡ true
      → IsListed c
  kept c w n e = record { found = ap named ((eq_iff (lower c.name) c.name).0 e) ∙ n; unbroken = w }

  commands-AllListed : keeps_names lower ≡ true → AllListed commands
  unfolding is_white
  commands-AllListed h = (
    kept gurr refl refl (ground arith),
    (
      kept status refl refl (ground arith),
      (kept flieg refl refl (ground arith), (kept mitglieder refl refl (ground arith), tt)),
    ),
  )

  filter-AllListed :
      (p : Command → Bool) (cs : List Command) → AllListed cs → AllListed (filter p cs)
  filter-AllListed p [] a = a
  filter-AllListed p (c ∷ cs) a = elim (Bool-cases (p c)) [
    | inl kept ↦ rw kept (a.0, filter-AllListed p cs a.1)
    | inr dropped ↦ rw dropped (filter-AllListed p cs a.1)
  ]

  filter_commands-AllListed :
      keeps_names lower ≡ true → (input : String) → AllListed (filter_commands lower input)
  unfolding filter_commands
  filter_commands-AllListed h input = elim (Bool-cases (starts_with input "/")) [
    | inl slash ↦ rw slash (
        filter-AllListed (λ (c : Command). starts_with c.name (lower (rest input))) commands
          (commands-AllListed h))
    | inr plain ↦ rw plain tt
  ]

  pub get_elem_in_range :
      {A : Type 0} (xs : List A) (i : ℕ)
      → ltb i (length xs) ≡ true
      → (x : A) × (get_elem xs i ≡ some x)
  get_elem_in_range [] i h = absurd (ground (arith, h))
  get_elem_in_range (x ∷ xs) zero h = (x, refl)
  get_elem_in_range (x ∷ xs) (suc i) h = get_elem_in_range xs i (ground (arith, h))

  module _ (topic : String) where
    -- Every step keeps the palette ready.
    complete-IsReady : (o : Option Command) (s : Input) → IsReady s → IsReady (complete o s)
    complete-IsReady none s r = r
    complete-IsReady (some c) s r = record { listed = tt; in_range = ground arith }

    other-IsReady :
        (now : ℕ) (key : Key) (shift : Bool) (s : Input)
        → IsReady s
        → IsReady (handle_other_key lower topic now key shift s).0
    unfolding handle_other_key
    other-IsReady now key shift s r = elim (Bool-cases (is_enter key && not shift)) [
      | inl sends ↦ rw sends r
      | inr types ↦ rw types (record { listed = r.listed; in_range = r.in_range })
    ]

    key_down-IsReady :
        (now : ℕ) (key : Key) (shift : Bool) (s : Input)
        → IsReady s
        → IsReady (handle_key_down lower topic now key shift s).0
    unfolding handle_key_down
    key_down-IsReady now arrow_down shift s r = elim (Bool-cases (ltb 0 (length s.filtered))) [
      | inl shown ↦ rw shown (record { listed = r.listed; in_range = ground (arith, r.in_range) })
      | inr hidden ↦ rw hidden (other-IsReady now arrow_down shift s r)
    ]
    key_down-IsReady now arrow_up shift s r = elim (Bool-cases (ltb 0 (length s.filtered))) [
      | inl shown ↦ rw shown (record { listed = r.listed; in_range = ground (arith, r.in_range) })
      | inr hidden ↦ rw hidden (other-IsReady now arrow_up shift s r)
    ]
    key_down-IsReady now tab shift s r = elim (Bool-cases (ltb 0 (length s.filtered))) [
      | inl shown ↦ rw shown (complete-IsReady (get_elem s.filtered s.command_index) s r)
      | inr hidden ↦ rw hidden (other-IsReady now tab shift s r)
    ]
    key_down-IsReady now enter shift s r =
        elim (Bool-cases
          (ltb 0 (length s.filtered) && (not shift && eqb (length (words (trim s.message))) 1))) [
            | inl completes ↦
                rw completes (complete-IsReady (get_elem s.filtered s.command_index) s r)
            | inr sends ↦ rw sends (other-IsReady now enter shift s r)
          ]
    key_down-IsReady now other shift s r = other-IsReady now other shift s r

    Step-IsReady :
        keeps_names lower ≡ true → (s t : Input) → IsReady s → Step lower topic s t → IsReady t
    unfolding handle_change handle_command_select finish_send
    Step-IsReady h _ _ r (changed s val) = elim (Bool-cases (starts_with val "/")) [
      | inl slash ↦
          rw slash (record { listed = filter_commands-AllListed h val; in_range = ground arith })
      | inr plain ↦ rw plain (record { listed = tt; in_range = ground arith })
    ]
    Step-IsReady h _ _ r (key_down s now key shift) = key_down-IsReady now key shift s r
    Step-IsReady h _ _ r (selected s i cmd e) = record { listed = tt; in_range = ground arith }
    Step-IsReady h _ _ r (finished s sending false timer) = record {
      listed = r.listed;
      in_range = r.in_range;
    }
    Step-IsReady h _ _ r (finished s (server_command name to args) true timer) = record {
      listed = tt;
      in_range = ground arith;
    }
    Step-IsReady h _ _ r (finished s (local_command name) true timer) = record {
      listed = tt;
      in_range = ground arith;
    }
    Step-IsReady h _ _ r (finished s no_command true timer) = record {
      listed = tt;
      in_range = ground arith;
    }
    Step-IsReady h _ _ r (finished s (publish text reply_to) true timer) = record {
      listed = r.listed;
      in_range = r.in_range;
    }
    Step-IsReady h _ _ r (faded s) = record { listed = r.listed; in_range = r.in_range }
    Step-IsReady h _ _ r (closed s) = record { listed = r.listed; in_range = r.in_range }
    Step-IsReady h _ _ r (replying s reply_to) = record { listed = r.listed; in_range = r.in_range }

    pub Reach-IsReady : keeps_names lower ≡ true → (s : Input) → Reach lower topic s → IsReady s
    Reach-IsReady h _ mounted = record { listed = tt; in_range = ground arith }
    Reach-IsReady h s (next {s = t} r step) = Step-IsReady h t s (Reach-IsReady h t r) step
