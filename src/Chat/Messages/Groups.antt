-- ===== src/Chat/Messages/Groups.antt =====
-- The groups that consecutive rows form.
use coop_messenger.Prelude.{
  ℕ, ◌≡◌, refl, sym, ap, String, Bool, true, not, ◌&&◌, ◌||◌, ◌===◌, Option, none, some, List, [],
  ◌∷◌, map, arith, eq_iff,
}
use coop_messenger.Types.{Message}
use coop_messenger.Events.{event_coop_nudge}
use coop_messenger.Chat.Messages.{
  Row, same_sender, distance, same_group_as_prev, same_group_as_next, rows_after, rows,
}

-- Two messages are of one date.
abbrev pub same_date : (ℕ → String) → Row → Row → Bool
same_date date_key r s = date_key r.message.time === date_key s.message.time

-- Each row ends a group exactly if the next one starts a group; the next one has a date above it
-- exactly if it is of another date; and if it starts no group, it is of the same date.
abbrev pub AreGroups : (ℕ → String) → List Row → Type 0
AreGroups date_key [] = Unit
AreGroups date_key (r ∷ []) = r.last_in_group ≡ true
AreGroups date_key (r ∷ s ∷ rest) =
    (r.last_in_group ≡ s.first_in_group)
    × (s.date_separator ≡ not (same_date date_key r s))
    × (s.first_in_group || same_date date_key r s ≡ true)
    × AreGroups date_key (s ∷ rest)

-- Whether the first row, if there is one, starts a group and has a date above it.
abbrev pub starts : List Row → Bool
starts [] = true
starts (r ∷ rs) = r.first_in_group && r.date_separator

same_sender_comm : (a b : Option String) → same_sender a b ≡ same_sender b a
same_sender_comm none none = refl
same_sender_comm none (some b) = refl
same_sender_comm (some a) none = refl
same_sender_comm (some a) (some b) = ground (arith, eq_iff a b, eq_iff b a)

distance_comm : (a b : ℕ) → distance a b ≡ distance b a
distance_comm a b = omega arith

module _ (date_key : ℕ → String) where
  -- The test that looks back and the one that looks ahead agree.
  prev-next :
      (a b : Message) (rest : List Message)
      → same_group_as_prev date_key (some a) b ≡ same_group_as_next date_key a (b ∷ rest)
  prev-next a b rest = ground (
    arith,
    same_sender_comm a.sender b.sender,
    eq_iff a.event b.event,
    eq_iff b.event a.event,
    eq_iff a.event event_coop_nudge,
    eq_iff b.event event_coop_nudge,
    eq_iff (date_key a.time) (date_key b.time),
    eq_iff (date_key b.time) (date_key a.time),
  )

  rows_after-AreGroups :
      (prev : Option Message) (ms : List Message) → AreGroups date_key (rows_after date_key prev ms)
  unfolding rows_after
  rows_after-AreGroups prev [] = tt
  rows_after-AreGroups prev (m ∷ []) = refl
  rows_after-AreGroups prev (m ∷ n ∷ ms) = (
    ap not (sym (prev-next m n ms)),
    ground (
      arith,
      eq_iff (date_key m.time) (date_key n.time),
      eq_iff (date_key n.time) (date_key m.time),
    ),
    ground (
      arith,
      eq_iff (date_key m.time) (date_key n.time),
      eq_iff (date_key n.time) (date_key m.time),
    ),
    rows_after-AreGroups (some m) (n ∷ ms),
  )

  map-rows_after :
      (prev : Option Message) (ms : List Message)
      → map (λ r. r.message) (rows_after date_key prev ms) ≡ ms
  unfolding rows_after
  map-rows_after prev [] = refl
  map-rows_after prev (m ∷ ms) = ap (m ∷◌) (map-rows_after (some m) ms)

  -- Every message has one row, in order. A row ends a group exactly if the next one starts one, the
  -- first row starts one and the last row ends one. A date stands above the first row and above each
  -- row of another date than the row before it, and nowhere else; and a row of another date than the
  -- row before it starts a group, so no group spans two dates.
  pub rows-AreGroups :
      (ms : List Message)
      → (map (λ r. r.message) (rows date_key ms) ≡ ms)
        × AreGroups date_key (rows date_key ms)
        × (starts (rows date_key ms) ≡ true)
  unfolding rows
  rows-AreGroups ms = (map-rows_after none ms, rows_after-AreGroups none ms, start ms)
    where
      start : (xs : List Message) → starts (rows_after date_key none xs) ≡ true
      start [] = refl
      start (x ∷ xs) = refl
