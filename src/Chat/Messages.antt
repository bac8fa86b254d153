-- ===== src/Chat/Messages.antt =====
-- web/src/components/ChatView.jsx: which messages are shown, and how they are grouped. `getDateKey`,
-- which depends on the time zone, is the argument `date_key`.
pub mod Pages
pub mod Groups
use coop_messenger.Prelude.{
  ℕ, ◌+◌, ◌-◌, String, Bool, true, false, not, ◌&&◌, ◌||◌, Option, none, some, List, [], ◌∷◌,
  filter, length, take, reverse, ltb, eqb, ◌===◌, some_eq, if◌then◌else◌,
}
use coop_messenger.Events.{event_message, event_coop_nudge}
use coop_messenger.Types.{Message}

abbrev pub group_time_threshold : ℕ
group_time_threshold = 300

abbrev pub is_shown : Message → Bool
is_shown m = m.event === event_message || m.event === event_coop_nudge

abbrev pub all_messages : List Message → List Message
all_messages = filter is_shown

-- The notifications come newest first, and are shown newest last.
unfoldable pub visible : ℕ → List Message → List Message
visible max_count notifications =
    if ltb max_count (length (all_messages notifications))
    then reverse (take max_count (all_messages notifications))
    else reverse (all_messages notifications)

-- The button that loads older messages, and what it does.
abbrev pub has_older : ℕ → List Message → Bool
has_older max_count notifications = ltb max_count (length (all_messages notifications))

abbrev pub load_more : ℕ → ℕ
load_more max_count = max_count + 20

-- `a === b` on senders that may be undefined
abbrev pub same_sender : Option String → Option String → Bool
same_sender none none = true
same_sender none (some b) = false
same_sender (some a) b = some_eq b a

-- `Math.abs(a - b)`
abbrev pub distance : ℕ → ℕ → ℕ
distance a b = (a - b) + (b - a)

pub record Row : Type 0 where
  pub message : Message
  pub date_separator : Bool
  pub first_in_group : Bool
  pub last_in_group : Bool

module _ (date_key : ℕ → String) where
  abbrev pub show_date_sep : Option Message → Message → Bool
  show_date_sep none m = true
  show_date_sep (some prev) m = not (date_key m.time === date_key prev.time)

  abbrev pub same_group_as_prev : Option Message → Message → Bool
  same_group_as_prev none m = false
  same_group_as_prev (some prev) m =
      same_sender prev.sender m.sender
      && (prev.event === m.event
          && (not (m.event === event_coop_nudge)
              && (ltb (distance m.time prev.time) group_time_threshold
                  && not (show_date_sep (some prev) m))))

  abbrev pub same_group_as_next : Message → List Message → Bool
  same_group_as_next m [] = false
  same_group_as_next m (next ∷ rest) =
      same_sender next.sender m.sender
      && (next.event === m.event
          && (not (m.event === event_coop_nudge)
              && (ltb (distance next.time m.time) group_time_threshold
                  && (date_key m.time === date_key next.time))))

  -- The messages after `prev`, one row each.
  unfoldable pub rows_after : Option Message → List Message → List Row
  rows_after prev [] = []
  rows_after prev (m ∷ ms) =
      record {
        message = m;
        date_separator = show_date_sep prev m;
        first_in_group = not (same_group_as_prev prev m);
        last_in_group = not (same_group_as_next m ms);
      }
      ∷ rows_after (some m) ms

  unfoldable pub rows : List Message → List Row
  unfolding rows_after
  rows = rows_after none
