-- ===== src/Poller/Latest.antt =====
-- latestNotificationsBySequenceId: which notification is kept for a sequence.
use mathlib.Core.List.{foldl}
use coop_messenger.Prelude.{
  ℕ, String, ◌≡◌, refl, sym, Bool, true, false, not, ◌||◌, Option, none, some, List, [], ◌∷◌, ◌++◌,
  arith, eq_iff, any, all, ◌===◌, leb, ltb, if◌then◌else◌, Bool-cases, inl, inr, ◌∙◌,
}
use coop_messenger.JsObject.{lookup, in_object, is_inherited, lookup-assign, has_own-lookup}
use coop_messenger.Types.{Message}
use coop_messenger.Subscriptions.{sequence_of}
use coop_messenger.Poller.{keep_latest, latest_notifications_by_sequence_id}

-- The later of two, the second at equal times.
abbrev newer : Option Message → Option Message → Option Message
newer none b = b
newer (some a) none = some a
newer (some a) (some b) = if leb a.time b.time then some b else some a

newer-none : (o : Option Message) → newer o none ≡ o
newer-none none = refl
newer-none (some a) = refl

newer_assoc : (a b c : Option Message) → newer (newer a b) c ≡ newer a (newer b c)
newer_assoc none b c = refl
newer_assoc (some a) none c = refl
newer_assoc (some a) (some b) none = ground arith
newer_assoc (some a) (some b) (some c) = ground arith

newest : String → List Message → Option Message
newest k [] = none
newest k (m ∷ ms) = newer (if sequence_of m === k then some m else none) (newest k ms)

lookup-keep_latest :
    (k : String) (latest : List (String × Message)) (m : Message)
    → is_inherited k ≡ false
    → lookup k (keep_latest latest m)
      ≡ newer (lookup k latest) (if sequence_of m === k then some m else none)
unfolding keep_latest in_object
lookup-keep_latest k latest m h = ground (
  arith,
  eq_iff (sequence_of m) k,
  has_own-lookup (sequence_of m) latest,
  lookup-assign (sequence_of m) k m latest,
)

lookup-foldl :
    (k : String) (ms : List Message) (latest : List (String × Message))
    → is_inherited k ≡ false
    → lookup k (foldl keep_latest latest ms) ≡ newer (lookup k latest) (newest k ms)
unfolding newest
lookup-foldl k [] latest h = sym (newer-none (lookup k latest))
lookup-foldl k (m ∷ ms) latest h =
    lookup-foldl k ms (keep_latest latest m) h
    ∙ rw (lookup-keep_latest k latest m h)
        (newer_assoc (lookup k latest) (if sequence_of m === k then some m else none) (newest k ms))

-- Of another sequence, or not later than the bound; of another sequence, or earlier.
abbrev pub is_bounded : String → ℕ → Message → Bool
is_bounded k t m = not (sequence_of m === k) || leb m.time t

abbrev pub is_earlier : String → ℕ → Message → Bool
is_earlier k t m = not (sequence_of m === k) || ltb m.time t

-- The newest message of the sequence `k` in a list: none if the list has none of the sequence;
-- otherwise one of the list, not older than any before it and newer than any behind it.
abbrev pub IsNewest : String → List Message → Option Message → Type 0
IsNewest k ms none = any (λ m. sequence_of m === k) ms ≡ false
IsNewest k ms (some m) =
    (before : List Message) × (after : List Message) × (ms ≡ before ++ m ∷ after)
    × (sequence_of m ≡ k)
    × (all (is_bounded k m.time) before ≡ true)
    × (all (is_earlier k m.time) after ≡ true)

all-is_earlier_of_none :
    (k : String) (t : ℕ) (ms : List Message)
    → any (λ m. sequence_of m === k) ms ≡ false
    → all (is_earlier k t) ms ≡ true
all-is_earlier_of_none k t [] h = refl
all-is_earlier_of_none k t (m ∷ ms) h = ground (arith, all-is_earlier_of_none k t ms)

-- Both bounds hold strictly under a later time.
all-is_earlier_of_lt :
    (k : String) (t u : ℕ) (before : List Message) (m : Message) (after : List Message)
    → ltb t u ≡ true
    → m.time ≡ t
    → all (is_bounded k t) before ≡ true
    → all (is_earlier k t) after ≡ true
    → all (is_earlier k u) (before ++ m ∷ after) ≡ true
all-is_earlier_of_lt k t u [] m after lt e hb ha = ground (arith, weaken after)
  where
    weaken : (l : List Message) → all (is_earlier k t) l ≡ true → all (is_earlier k u) l ≡ true
    weaken [] h = refl
    weaken (x ∷ l) h = ground (arith, weaken l)
all-is_earlier_of_lt k t u (b ∷ before) m after lt e hb ha =
    ground (arith, all-is_earlier_of_lt k t u before m after lt e)

IsNewest-cons :
    (k : String) (m : Message) (ms : List Message) (o : Option Message)
    → IsNewest k ms o
    → IsNewest k (m ∷ ms) (newer (if sequence_of m === k then some m else none) o)
IsNewest-cons k m ms none h = elim (Bool-cases (sequence_of m === k)) [
  | inl same ↦
      rw same ([], ms, refl, (eq_iff _ _).0 same, refl, all-is_earlier_of_none k m.time ms h)
  | inr other ↦ rw other (ground arith)
]
IsNewest-cons k m ms (some b) (before, after, split, seq, hb, ha) =
    elim (Bool-cases (sequence_of m === k)) [
      | inl same ↦ elim (Bool-cases (leb m.time b.time)) [
        | inl le ↦ rw (same, le) (m ∷ before, after, ap-cons split, seq, ground arith, ha)
        | inr gt ↦
            rw (same, gt)
              (
                [],
                ms,
                refl,
                (eq_iff _ _).0 same,
                refl,
                rw split
                    (all-is_earlier_of_lt k b.time m.time before b after (ground arith) refl hb ha),
              )
      ]
      | inr other ↦ rw other (m ∷ before, after, ap-cons split, seq, ground arith, ha)
    ]
  where
    ap-cons : ms ≡ before ++ b ∷ after → m ∷ ms ≡ m ∷ (before ++ b ∷ after)
    ap-cons e = cc

newest-IsNewest : (k : String) (ms : List Message) → IsNewest k ms (newest k ms)
unfolding newest
newest-IsNewest k [] = refl
newest-IsNewest k (m ∷ ms) = IsNewest-cons k m ms (newest k ms) (newest-IsNewest k ms)

-- For a sequence id that no object inherits, what is kept is the newest notification of the
-- sequence: none exactly if there is none, and at equal times the last one.
pub latest-IsNewest :
    (k : String) (ms : List Message)
    → is_inherited k ≡ false
    → IsNewest k ms (lookup k (latest_notifications_by_sequence_id ms))
unfolding latest_notifications_by_sequence_id lookup
latest-IsNewest k ms h = rw (lookup-foldl k ms [] h) (newest-IsNewest k ms)

lookup-keep_latest_inherited :
    (k : String) (latest : List (String × Message)) (m : Message)
    → is_inherited k ≡ true
    → lookup k latest ≡ none
    → lookup k (keep_latest latest m) ≡ none
unfolding keep_latest in_object
lookup-keep_latest_inherited k latest m h e = ground (
  arith,
  eq_iff (sequence_of m) k,
  has_own-lookup (sequence_of m) latest,
  lookup-assign (sequence_of m) k m latest,
)

-- Under a sequence id that every object inherits, such as "constructor", no notification is ever
-- kept: whatever the server sent for it is dropped.
lookup-latest_inherited :
    (k : String) (ms : List Message)
    → is_inherited k ≡ true
    → lookup k (latest_notifications_by_sequence_id ms) ≡ none
unfolding latest_notifications_by_sequence_id
lookup-latest_inherited k ms h = go ms [] (unfold lookup in refl)
  where
    go :
        (ms : List Message) (latest : List (String × Message))
        → lookup k latest ≡ none
        → lookup k (foldl keep_latest latest ms) ≡ none
    go [] latest e = e
    go (m ∷ ms) latest e =
        go ms (keep_latest latest m) (lookup-keep_latest_inherited k latest m h e)
