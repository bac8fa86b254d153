-- ===== src/Chat/Reactions/Tally.antt =====
-- The counts beside the users who reacted, before and after a toggle.
use coop_messenger.Prelude.{
  ℕ, ◌+◌, ◌-◌, ◌<◌, ◌≡◌, refl, ap, sym, ◌∙◌, Bool-cases, inl, inr, String, Bool, true, false, not,
  ◌&&◌, Option, none, some, List, [], ◌∷◌, ◌++◌, map, filter, find, any, any-append, count, length,
  leb, arith, eq_iff, eq_refl, ◌===◌, if◌then◌else◌,
}
use coop_messenger.Chat.Reactions.{
  Reaction, same_user, with_own, without_own, first_reaction, toggle,
}

-- No user stands twice.
abbrev pub distinct : List (Option String) → Bool
distinct [] = true
distinct (u ∷ us) = not (any (λ v. same_user v u) us) && distinct us

-- The count is that of the users, `reacted` says whether the own user is among them, and no user is
-- listed twice.
abbrev pub IsEntry : Option String → Reaction → Type 0
IsEntry username r =
    (0 < r.count)
    × (length r.users ≡ r.count)
    × (count (λ u. same_user u username) r.users ≡ (if r.reacted then 1 else 0))
    × (distinct r.users ≡ true)

-- Every entry is right, and no emoji stands twice.
abbrev pub IsTally : Option String → List Reaction → Type 0
IsTally username [] = Unit
IsTally username (r ∷ rs) =
    IsEntry username r × (any (λ s. s.emoji === r.emoji) rs ≡ false) × IsTally username rs

same_user_refl : (u : Option String) → same_user u u ≡ true
same_user_refl none = refl
same_user_refl (some a) = eq_refl a

module _ (username : Option String) where
  length-with : (us : List (Option String)) → length (us ++ username ∷ []) ≡ length us + 1
  length-with [] = omega arith
  length-with (u ∷ us) = omega (arith, length-with us)

  count-with :
      (us : List (Option String))
      → count (λ u. same_user u username) (us ++ username ∷ [])
        ≡ count (λ u. same_user u username) us + 1
  count-with [] = ground (arith, same_user_refl username)
  count-with (u ∷ us) = ground (arith, count-with us)

  length-without :
      (us : List (Option String))
      → length (filter (λ u. not (same_user u username)) us) + count (λ u. same_user u username) us
        ≡ length us
  length-without [] = omega arith
  length-without (u ∷ us) = ground (arith, length-without us)

  count-without :
      (us : List (Option String))
      → count (λ u. same_user u username) (filter (λ u. not (same_user u username)) us) ≡ 0
  count-without [] = refl
  count-without (u ∷ us) = ground (arith, count-without us)

same_user-eq : (u v : Option String) → same_user u v ≡ true → u ≡ v
same_user-eq none none h = refl
same_user-eq none (some b) h = absurd (ground (arith, h))
same_user-eq (some a) none h = absurd (ground (arith, h))
same_user-eq (some a) (some b) h = ap some ((eq_iff a b).0 h)

same_user_comm : (u v : Option String) → same_user u v ≡ same_user v u
same_user_comm none none = refl
same_user_comm none (some b) = refl
same_user_comm (some a) none = refl
same_user_comm (some a) (some b) = ground (arith, eq_iff a b, eq_iff b a)

any-count_zero :
    (p : Option String → Bool) (us : List (Option String)) → count p us ≡ 0 → any p us ≡ false
any-count_zero p [] h = refl
any-count_zero p (u ∷ us) h = ground (arith, h, any-count_zero p us)

any-filtered :
    (p q : Option String → Bool) (us : List (Option String))
    → any p us ≡ false
    → any p (filter q us) ≡ false
any-filtered p q [] h = refl
any-filtered p q (u ∷ us) h = ground (arith, h, any-filtered p q us)

distinct-filter :
    (q : Option String → Bool) (us : List (Option String))
    → distinct us ≡ true
    → distinct (filter q us) ≡ true
distinct-filter q [] h = refl
distinct-filter q (u ∷ us) h =
    ground (arith, h, distinct-filter q us, any-filtered (λ v. same_user v u) q us)

distinct-append :
    (w : Option String) (us : List (Option String))
    → distinct us ≡ true
    → any (λ u. same_user u w) us ≡ false
    → distinct (us ++ w ∷ []) ≡ true
distinct-append w [] h a = refl
distinct-append w (u ∷ us) h a = ground (
  arith,
  h,
  a,
  distinct-append w us,
  any-append (λ v. same_user v u) us (w ∷ []),
  same_user_comm w u,
)

module _ (username : Option String) (emoji : String) where
  -- What `toggle` does to the first entry with the emoji.
  changed : Reaction → List Reaction → List Reaction
  changed r rs =
      if r.reacted
      then (if leb r.count 1 then rs else without_own username emoji (r.count - 1) r ∷ rs)
      else with_own username emoji r ∷ rs

  -- A toggle as a walk through the list.
  walk : List Reaction → List Reaction
  unfolding changed
  walk [] = first_reaction username emoji ∷ []
  walk (r ∷ rs) = let rest = walk rs in if r.emoji === emoji then changed r rs else r ∷ rest

  filter-absent :
      (rs : List Reaction)
      → any (λ s. s.emoji === emoji) rs ≡ false
      → filter (λ r. not (r.emoji === emoji)) rs ≡ rs
  filter-absent [] h = refl
  filter-absent (r ∷ rs) h = ground (arith, filter-absent rs)

  map-absent :
      (f : Reaction → Reaction) (rs : List Reaction)
      → any (λ s. s.emoji === emoji) rs ≡ false
      → map (λ r. if r.emoji === emoji then f r else r) rs ≡ rs
  map-absent f [] h = refl
  map-absent f (r ∷ rs) h = ground (arith, map-absent f rs)

  absent-rest :
      (r : Reaction) (rs : List Reaction)
      → any (λ s. s.emoji === r.emoji) rs ≡ false
      → (r.emoji === emoji) ≡ true
      → any (λ s. s.emoji === emoji) rs ≡ false
  absent-rest r rs h e =
      ap (λ k. any (λ s. s.emoji === k) rs) (sym ((eq_iff r.emoji emoji).0 e)) ∙ h

  toggle-walk : (rs : List Reaction) → IsTally username rs → toggle username emoji rs ≡ walk rs
  unfolding toggle walk
  toggle-walk [] v = refl
  toggle-walk (r ∷ rs) v = elim (Bool-cases (r.emoji === emoji)) [
    | inl e ↦
        let absent = absent-rest r rs v.1 e in
        let kept = filter-absent rs absent in
        let same = map-absent (with_own username emoji) rs absent in
        let same' = map-absent (without_own username emoji (r.count - 1)) rs absent in
        ground (arith, e, kept, same, same')
    | inr e ↦ let ih = toggle-walk rs v.2 in ground (arith, e, ih)
  ]

  any-walk :
      (k : String) (rs : List Reaction)
      → (emoji === k) ≡ false
      → any (λ s. s.emoji === k) (walk rs) ≡ any (λ s. s.emoji === k) rs
  unfolding walk
  any-walk k [] h = ground (arith, h)
  any-walk k (r ∷ rs) h =
      let ih = any-walk k rs h in
      ground (arith, h, ih, eq_iff r.emoji emoji, eq_iff emoji k, eq_iff r.emoji k)

  changed-IsTally :
      (r : Reaction) (rs : List Reaction)
      → IsTally username (r ∷ rs)
      → IsTally username (changed r rs)
  unfolding changed
  changed-IsTally r rs v = ground (
    arith,
    length-with username r.users,
    count-with username r.users,
    length-without username r.users,
    count-without username r.users,
    distinct-filter (λ u. not (same_user u username)) r.users,
    distinct-append username r.users,
    any-count_zero (λ u. same_user u username) r.users,
  )

  walk-IsTally : (rs : List Reaction) → IsTally username rs → IsTally username (walk rs)
  unfolding walk
  walk-IsTally [] v = ground (arith, same_user_refl username)
  walk-IsTally (r ∷ rs) v = elim (Bool-cases (r.emoji === emoji)) [
    | inl e ↦ rw e (changed-IsTally r rs v)
    | inr e ↦
        let apart : (emoji === r.emoji) ≡ false =
          ground (arith, eq_iff r.emoji emoji, eq_iff emoji r.emoji) in
        rw e (v.0, any-walk r.emoji rs apart ∙ v.1, walk-IsTally rs v.2)
  ]

  -- A toggle keeps the tally right: every count is the number of users who reacted, none is 0, no
  -- user is counted twice, and no emoji is listed twice.
  pub toggle-IsTally :
      (rs : List Reaction) → IsTally username rs → IsTally username (toggle username emoji rs)
  toggle-IsTally rs v = rw (toggle-walk rs v) (walk-IsTally rs v)

-- The count that a chip shows for an emoji, and whether it is marked as the user's own.
abbrev pub shown : String → List Reaction → ℕ × Bool
shown k rs = elim (find (λ r. r.emoji === k) rs) [
  | none ↦ (0, false)
  | some r ↦ (r.count, r.reacted)
]

-- One more, or one less if the user had reacted.
abbrev pub flipped : ℕ × Bool → ℕ × Bool
flipped (n, true) = (n - 1, false)
flipped (n, false) = (n + 1, true)

module _ (username : Option String) (emoji : String) where
  find-absent :
      (k : String) (rs : List Reaction)
      → any (λ s. s.emoji === k) rs ≡ false
      → find (λ r. r.emoji === k) rs ≡ none
  find-absent k [] h = refl
  find-absent k (r ∷ rs) h = ground (arith, find-absent k rs)

  shown-changed :
      (r : Reaction) (rs : List Reaction)
      → IsTally username (r ∷ rs)
      → (r.emoji === emoji) ≡ true
      → shown emoji (changed username emoji r rs) ≡ flipped (shown emoji (r ∷ rs))
  unfolding changed
  shown-changed r rs v e =
      let absent = absent-rest username emoji r rs v.1 e in
      ground (arith, e, find-absent emoji rs absent)

  shown-walk_self :
      (rs : List Reaction)
      → IsTally username rs
      → shown emoji (walk username emoji rs) ≡ flipped (shown emoji rs)
  unfolding walk
  shown-walk_self [] v = ground (arith, eq_refl emoji)
  shown-walk_self (r ∷ rs) v = elim (Bool-cases (r.emoji === emoji)) [
    | inl e ↦ rw e (shown-changed r rs v e)
    | inr e ↦ let ih = shown-walk_self rs v.2 in ground (arith, e, ih)
  ]

  shown-walk_ne :
      (k : String) (rs : List Reaction)
      → (emoji === k) ≡ false
      → shown k (walk username emoji rs) ≡ shown k rs
  unfolding walk changed
  shown-walk_ne k [] h = ground (arith, h)
  shown-walk_ne k (r ∷ rs) h =
      let ih = shown-walk_ne k rs h in
      ground (arith, h, ih, eq_iff r.emoji emoji, eq_iff emoji k, eq_iff r.emoji k)

  flipped-flipped :
      (k : String) (rs : List Reaction)
      → IsTally username rs
      → flipped (flipped (shown k rs)) ≡ shown k rs
  flipped-flipped k [] v = refl
  flipped-flipped k (r ∷ rs) v = elim (Bool-cases (r.emoji === k)) [
    | inl e ↦ let positive = v.0.0 in ground (arith, e, positive)
    | inr e ↦ let ih = flipped-flipped k rs v.2 in ground (arith, e, ih)
  ]

  shown-toggle :
      (k : String) (rs : List Reaction)
      → IsTally username rs
      → shown k (toggle username emoji rs)
        ≡ (if emoji === k then flipped (shown k rs) else shown k rs)
  shown-toggle k rs v = elim (Bool-cases (emoji === k)) [
    | inl e ↦ rw (toggle-walk username emoji rs v, e, ← (eq_iff emoji k).0 e) (shown-walk_self rs v)
    | inr e ↦ rw (toggle-walk username emoji rs v, e) (shown-walk_ne k rs e)
  ]

  -- A toggle adds one to what is shown for its emoji and marks it, or takes one away and unmarks it
  -- if it was marked; what is shown for any other emoji stays. Toggling twice restores all of it.
  toggle-toggle :
      (k : String) (rs : List Reaction)
      → IsTally username rs
      → (shown k (toggle username emoji rs)
          ≡ (if emoji === k then flipped (shown k rs) else shown k rs))
        × (shown k (toggle username emoji (toggle username emoji rs)) ≡ shown k rs)
  toggle-toggle k rs v =
      let once = shown-toggle k rs v in
      let twice = shown-toggle k (toggle username emoji rs) (toggle-IsTally username emoji rs v) in
      (
        once,
        elim (Bool-cases (emoji === k)) [
          | inl e ↦ twice ∙ rw (once, e) (flipped-flipped k rs v)
          | inr e ↦ twice ∙ rw (once, e) refl
        ],
      )
