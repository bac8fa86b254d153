-- ===== src/Chat/Typing.antt =====
-- web/src/components/ChatView.jsx: who is shown as typing. A typing event shows its sender and sets a
-- timer that takes the sender away again; the cleanup of the effect runs when the chat changes.
pub mod Timers
use coop_messenger.Prelude.{
  ℕ, ◌≡◌, String, Bool, true, false, not, ◌&&◌, ◌||◌, Option, none, some, List, [], ◌∷◌, ◌++◌,
  filter, any, includes, eqb, ◌===◌, truthy, some_eq, if◌then◌else◌,
}
use coop_messenger.Types.{Session}

pub record SocialEvent : Type 0 where
  pub event : String
  pub topic : String
  pub sender : Option String

-- The users shown, `typingTimersRef.current` by sender, and the timers that the browser still has to
-- fire, each with the sender that its callback captured.
pub record Typing : Type 0 where
  pub users : List String
  pub timers : List (String × ℕ)
  pub pending : List (ℕ × String)

abbrev pub timer_of : String → List (String × ℕ) → Option ℕ
timer_of u [] = none
timer_of u ((v, t) ∷ m) = if v === u then some t else timer_of u m

-- `delete timers[sender]`
abbrev pub forget : String → List (String × ℕ) → List (String × ℕ)
forget u = filter (λ e. not (e.0 === u))

abbrev pub clear_timeout : ℕ → List (ℕ × String) → List (ℕ × String)
clear_timeout t = filter (λ p. not (eqb p.0 t))

-- Whose callback a timer of the browser runs.
abbrev pub sender_of : ℕ → List (ℕ × String) → Option String
sender_of t [] = none
sender_of t ((i, u) ∷ l) = if eqb i t then some u else sender_of t l

-- The handler's early returns, for the topic of the chat.
abbrev pub is_ignored : String → Session → SocialEvent → Bool
is_ignored topic session e =
    not (e.event === "coop_typing")
    || (not (e.topic === topic)
        || (not (truthy e.sender)
            || (elim session.username [ none ↦ false | some own ↦ some_eq e.sender own ])))

-- The rest of the handler; `timer` is what `setTimeout` returns.
unfoldable pub show_typing : ℕ → String → Typing → Typing
show_typing timer sender st = record {
  users = if includes sender st.users then st.users else st.users ++ sender ∷ [];
  timers = (sender, timer) ∷ forget sender st.timers;
  pending = (timer, sender) ∷ (elim (timer_of sender st.timers) [
    | none ↦ st.pending
    | some old ↦ clear_timeout old st.pending
  ]);
}

unfoldable pub handle_social : String → Session → ℕ → SocialEvent → Typing → Typing
unfolding show_typing
handle_social topic session timer e st =
    if is_ignored topic session e
    then st
    else elim e.sender [ none ↦ st | some sender ↦ show_typing timer sender st ]

-- The callback of a timer, five seconds later.
unfoldable pub timer_fired : ℕ → Typing → Typing
timer_fired t st = elim (sender_of t st.pending) [
  | none ↦ st
  | some sender ↦ record {
    users = filter (λ u. not (u === sender)) st.users;
    timers = forget sender st.timers;
    pending = clear_timeout t st.pending;
  }
]

abbrev pub is_timer : List (String × ℕ) → ℕ → Bool
is_timer timers t = any (λ e. eqb e.1 t) timers

-- The cleanup, when the topic changes or the chat is closed.
unfoldable pub cleanup : Typing → Typing
cleanup st = record st {
  timers = [];
  pending = filter (λ p. not (is_timer st.timers p.0)) st.pending;
}

-- Timer ids that are pending are not given out again.
pub data Step (topic : String) (session : Session) : Typing → Typing → Type 0 where
  heard :
      (st : Typing) (timer : ℕ) (e : SocialEvent)
      → sender_of timer st.pending ≡ none
      → Step topic session st (handle_social topic session timer e st)
  fired : (st : Typing) (t : ℕ) → Step topic session st (timer_fired t st)

abbrev pub quiet : Typing
quiet = record { users = []; timers = []; pending = [] }

-- What can have happened since the view was opened, with the topic of the chat that is shown, and the
-- users who were shown when it was last changed. The view stays when the chat changes: the cleanup runs,
-- and the users who are shown stay.
pub data Reach (session : Session) : String → List String → Typing → Type 0 where
  opened : (topic : String) → Reach session topic [] quiet
  next :
      {topic : String} {left : List String} {st st' : Typing}
      → Reach session topic left st
      → Step topic session st st'
      → Reach session topic left st'
  changed :
      {topic : String} {left : List String} {st : Typing} (new_topic : String)
      → Reach session topic left st
      → Reach session new_topic st.users (cleanup st)
