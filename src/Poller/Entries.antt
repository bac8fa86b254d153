-- ===== src/Poller/Entries.antt =====
-- The entries of latestNotificationsBySequenceId: whose they are, and which are deleted or added.

use mathlib.Core.List.{foldl}
use coop_messenger.Prelude.{
  String, ◌≡◌, refl, true, false, ◌||◌, none, some, List, [], ◌∷◌, arith, eq_iff, any, ◌===◌,
  Bool-cases, inl, inr, ℕ,
}
use coop_messenger.JsObject.{lookup, has_own, replace, place, assign}
use coop_messenger.Events.{event_message, event_message_delete}
use coop_messenger.Types.{Message}
use coop_messenger.Subscriptions.{sequence_of}
use coop_messenger.Poller.{
  keep_latest, latest_notifications_by_sequence_id, deleted_sequence_ids, notifications_to_add,
  recent_notifications,
}

-- No message comes with a stored sequence id.
abbrev pub IsWire : Message → Type 0
IsWire m = m.stored_sequence_id ≡ none

abbrev pub AllWire : List Message → Type 0
AllWire [] = Unit
AllWire (m ∷ ms) = IsWire m × AllWire ms

-- Each entry is such a message, under its own sequence id, and no id stands twice.
abbrev pub IsKeyed : List (String × Message) → Type 0
IsKeyed [] = Unit
IsKeyed ((k, m) ∷ l) = (sequence_of m ≡ k) × (has_own k l ≡ false) × IsKeyed l × IsWire m

has_own-replace :
    (j k : String) (v : Message) (l : List (String × Message))
    → has_own j (replace k v l) ≡ has_own j l
unfolding has_own replace
has_own-replace j k v [] = refl
has_own-replace j k v ((i, w) ∷ l) = ground (arith, has_own-replace j k v l)

has_own-place :
    (j k : String) (v : Message) (l : List (String × Message))
    → has_own j (place k v l) ≡ (k === j || has_own j l)
unfolding has_own place
has_own-place j k v [] = refl
has_own-place j k v ((i, w) ∷ l) = ground (arith, has_own-place j k v l)

replace-IsKeyed :
    (v : Message) (l : List (String × Message))
    → IsWire v
    → IsKeyed l
    → IsKeyed (replace (sequence_of v) v l)
unfolding replace
replace-IsKeyed v [] w h = tt
replace-IsKeyed v ((i, u) ∷ l) w (e, f, h, uw) = ground (
  arith,
  eq_iff i (sequence_of v),
  has_own-replace i (sequence_of v) v l,
  replace-IsKeyed v l w h,
)

place-IsKeyed :
    (v : Message) (l : List (String × Message))
    → has_own (sequence_of v) l ≡ false
    → IsWire v
    → IsKeyed l
    → IsKeyed (place (sequence_of v) v l)
unfolding place has_own
place-IsKeyed v [] n w h = (refl, refl, tt, w)
place-IsKeyed v ((i, u) ∷ l) n w (e, f, h, uw) = ground (
  arith,
  eq_iff i (sequence_of v),
  eq_iff (sequence_of v) i,
  has_own-place i (sequence_of v) v l,
  place-IsKeyed v l,
)

assign-IsKeyed :
    (v : Message) (l : List (String × Message))
    → IsWire v
    → IsKeyed l
    → IsKeyed (assign (sequence_of v) v l)
unfolding assign
assign-IsKeyed v l w h = elim (Bool-cases (has_own (sequence_of v) l)) [
  | inl old ↦ rw old (replace-IsKeyed v l w h)
  | inr new ↦ rw new (place-IsKeyed v l new w h)
]

keep_latest-IsKeyed :
    (m : Message) (l : List (String × Message)) → IsWire m → IsKeyed l → IsKeyed (keep_latest l m)
unfolding keep_latest
keep_latest-IsKeyed m l w h = ground (arith, assign-IsKeyed m l w h)

pub latest-IsKeyed :
    (ms : List Message) → AllWire ms → IsKeyed (latest_notifications_by_sequence_id ms)
unfolding latest_notifications_by_sequence_id
latest-IsKeyed ms w = go ms [] w tt
  where
    go :
        (ms : List Message) (l : List (String × Message))
        → AllWire ms
        → IsKeyed l
        → IsKeyed (foldl keep_latest l ms)
    go [] l w h = h
    go (m ∷ ms) l w h = go ms (keep_latest l m) w.1 (keep_latest-IsKeyed m l w.0 h)

pub AllWire-recent :
    (threshold : ℕ) (ms : List Message) → AllWire ms → AllWire (recent_notifications threshold ms)
unfolding recent_notifications
AllWire-recent threshold [] w = ground arith
AllWire-recent threshold (m ∷ ms) w = ground (arith, AllWire-recent threshold ms w.1)

pub AllWire-notifications_to_add :
    (l : List (String × Message)) → IsKeyed l → AllWire (notifications_to_add l)
unfolding notifications_to_add
AllWire-notifications_to_add [] h = tt
AllWire-notifications_to_add ((k, m) ∷ l) (e, f, h, w) =
    ground (arith, AllWire-notifications_to_add l h)

pub any-deleted_sequence_ids :
    (k : String) (m : Message) (l : List (String × Message))
    → lookup k l ≡ some m
    → m.event ≡ event_message_delete
    → any (λ s. s === k) (deleted_sequence_ids l) ≡ true
unfolding lookup deleted_sequence_ids
any-deleted_sequence_ids k m [] h e = ground arith
any-deleted_sequence_ids k m ((j, v) ∷ l) h e =
    ground (arith, any-deleted_sequence_ids k m l, eq_iff j k, eq_iff v.event event_message_delete)

any-to_add_absent :
    (k : String) (l : List (String × Message))
    → has_own k l ≡ false
    → IsKeyed l
    → any (λ n. sequence_of n === k) (notifications_to_add l) ≡ false
unfolding has_own notifications_to_add
any-to_add_absent k [] a h = refl
any-to_add_absent k ((j, v) ∷ l) a (e, f, h, w) = ground (arith, any-to_add_absent k l, h)

pub any-notifications_to_add :
    (k : String) (m : Message) (l : List (String × Message))
    → lookup k l ≡ some m
    → m.event ≡ event_message_delete
    → IsKeyed l
    → any (λ n. sequence_of n === k) (notifications_to_add l) ≡ false
unfolding lookup notifications_to_add has_own
any-notifications_to_add k m [] h e w = refl
any-notifications_to_add k m ((j, v) ∷ l) h e (s, f, w, vw) =
    ground
      (arith, any-notifications_to_add k m l, any-to_add_absent k l, w, eq_iff j k, not_message v)
  where
    not_message :
        (n : Message) → n.event ≡ event_message_delete → (n.event === event_message) ≡ false
    not_message n e = rw e refl
