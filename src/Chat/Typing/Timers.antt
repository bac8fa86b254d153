-- ===== src/Chat/Typing/Timers.antt =====
-- Which users who are shown as typing have a timer.
use coop_messenger.Prelude.{
  ℕ, String, ◌≡◌, refl, sym, ap, Bool, true, false, not, ◌&&◌, Option, none, some, List, [], ◌∷◌,
  ◌++◌, filter, any-append, includes, eqb, eqb_iff, eq_iff, eq_refl, arith, ◌===◌, if◌then◌else◌,
  Bool-cases, Option-cases, inl, inr,
}
use coop_messenger.Types.{Session}
use mathlib.Core.Path.{subst}
use coop_messenger.Chat.Typing.{
  SocialEvent, Typing, timer_of, forget, clear_timeout, sender_of, show_typing, is_ignored,
  handle_social, timer_fired, is_timer, cleanup, heard, fired, Reach, opened, next, changed,
}

timer_of-forget :
    (u v : String) (m : List (String × ℕ))
    → timer_of v (forget u m) ≡ (if u === v then none else timer_of v m)
timer_of-forget u v [] = ground arith
timer_of-forget u v ((w, t) ∷ m) =
    ground (arith, timer_of-forget u v m, eq_iff w u, eq_iff u v, eq_iff w v)

sender_of-clear_timeout :
    (t s : ℕ) (l : List (ℕ × String))
    → sender_of s (clear_timeout t l) ≡ (if eqb t s then none else sender_of s l)
sender_of-clear_timeout t s [] = ground arith
sender_of-clear_timeout t s ((i, u) ∷ l) = ground (arith, sender_of-clear_timeout t s l)

-- The timer recorded for a user is pending and the user's; a pending timer is the one recorded for
-- its user; a user who is shown has one, unless left over from another chat.
pub record IsTimed (left : List String) (st : Typing) : Type 0 where
  pub armed : (u : String) (t : ℕ) → timer_of u st.timers ≡ some t → sender_of t st.pending ≡ some u
  pub known : (t : ℕ) (u : String) → sender_of t st.pending ≡ some u → timer_of u st.timers ≡ some t
  pub timed :
      (u : String)
      → includes u st.users ≡ true
      → includes u left ≡ false
      → (t : ℕ) × (timer_of u st.timers ≡ some t)

-- A pending timer's sender, unless it is this one.
abbrev drop : String → Option String → Option String
drop sender none = none
drop sender (some u) = if u === sender then none else some u

module _ (left : List String) (st : Typing) (v : IsTimed left st) (sender : String) where
  -- Clearing a user's timer takes away just that user's callback.
  sender_of-cleared :
      (old t : ℕ)
      → timer_of sender st.timers ≡ some old
      → sender_of t (clear_timeout old st.pending) ≡ drop sender (sender_of t st.pending)
  sender_of-cleared old t e = elim (Option-cases (sender_of t st.pending)) [
    | inl n ↦ ground (arith, n, sender_of-clear_timeout old t st.pending)
    | inr (u, s) ↦ ground (
      arith,
      s,
      sender_of-clear_timeout old t st.pending,
      v.armed sender old,
      v.known t u,
      eq_iff u sender,
      eqb_iff old t,
    )
  ]

  sender_of-not_timed :
      (t : ℕ)
      → timer_of sender st.timers ≡ none
      → sender_of t st.pending ≡ drop sender (sender_of t st.pending)
  sender_of-not_timed t e = elim (Option-cases (sender_of t st.pending)) [
    | inl n ↦ ground (arith, n)
    | inr (u, s) ↦ ground (arith, s, v.known t u, eq_iff u sender)
  ]

  kept : List (ℕ × String)
  kept = elim (timer_of sender st.timers) [
    | none ↦ st.pending
    | some old ↦ clear_timeout old st.pending
  ]

  sender_of-kept : (t : ℕ) → sender_of t kept ≡ drop sender (sender_of t st.pending)
  unfolding kept
  sender_of-kept t = elim (Option-cases (timer_of sender st.timers)) [
    | inl e ↦ let same = sender_of-not_timed t e in ground (arith, e, same)
    | inr (old, e) ↦ let same = sender_of-cleared old t e in ground (arith, e, same)
  ]

  includes-with :
      (u : String)
      → includes u (if includes sender st.users then st.users else st.users ++ sender ∷ []) ≡ true
      → (sender === u) ≡ false
      → includes u st.users ≡ true
  includes-with u h ne = ground (arith, h, ne, any-append (λ x. x === u) st.users (sender ∷ []))

  show_typing-IsTimed :
      (timer : ℕ) → sender_of timer st.pending ≡ none → IsTimed left (show_typing timer sender st)
  unfolding show_typing sender_of-kept
  show_typing-IsTimed timer fresh = record {
    armed = λ u t h. ground (
      arith,
      h,
      fresh,
      timer_of-forget sender u st.timers,
      sender_of-kept t,
      v.armed u t,
      eq_iff sender u,
      eq_iff u sender,
      eqb_iff timer t,
    );
    known = λ t u h. ground (
      arith,
      h,
      fresh,
      timer_of-forget sender u st.timers,
      sender_of-kept t,
      v.known t u,
      eq_iff sender u,
      eq_iff u sender,
      eqb_iff timer t,
    );
    timed = λ u h l. elim (Bool-cases (sender === u)) [
      | inl e ↦ (timer, rw e refl)
      | inr e ↦
          let (t, old) = v.timed u (includes-with u h e) l in
          (t, rw (e, timer_of-forget sender u st.timers, e) old)
    ];
  }

  includes-filter :
      (u : String) (us : List String)
      → includes u (filter (λ x. not (x === sender)) us) ≡ (not (u === sender) && includes u us)
  includes-filter u [] = ground arith
  includes-filter u (x ∷ us) =
      ground (arith, includes-filter u us, eq_iff x sender, eq_iff u sender, eq_iff x u)

  after_timer-IsTimed :
      (t : ℕ)
      → sender_of t st.pending ≡ some sender
      → IsTimed left (record {
        users = filter (λ u. not (u === sender)) st.users;
        timers = forget sender st.timers;
        pending = clear_timeout t st.pending;
      })
  after_timer-IsTimed t s = record {
    armed = λ u k h. ground (
      arith,
      h,
      timer_of-forget sender u st.timers,
      sender_of-cleared t k (v.known t sender s),
      v.armed u k,
      eq_iff sender u,
      eq_iff u sender,
    );
    known = λ k u h. ground (
      arith,
      h,
      timer_of-forget sender u st.timers,
      sender_of-cleared t k (v.known t sender s),
      v.known k u,
      eq_iff sender u,
      eq_iff u sender,
    );
    timed = λ u h l.
        let apart : (u === sender) ≡ false = ground (arith, h, includes-filter u st.users) in
        let there : includes u st.users ≡ true = ground (arith, h, includes-filter u st.users) in
        let (k, old) = v.timed u there l in
        (
          k,
          ground (
            arith,
            old,
            apart,
            timer_of-forget sender u st.timers,
            eq_iff sender u,
            eq_iff u sender,
          ),
        );
  }

timer_fired-IsTimed :
    (t : ℕ) (left : List String) (st : Typing) → IsTimed left st → IsTimed left (timer_fired t st)
unfolding timer_fired
timer_fired-IsTimed t left st v = elim (Option-cases (sender_of t st.pending)) [
  | inl n ↦
      let same : timer_fired t st ≡ st = ground (arith, n) in subst (IsTimed left) (sym same) v
  | inr (sender, s) ↦
      let same : timer_fired t st ≡ record {
        users = filter (λ u. not (u === sender)) st.users;
        timers = forget sender st.timers;
        pending = clear_timeout t st.pending;
      } =
        ground (arith, s) in
      subst (IsTimed left) (sym same) (after_timer-IsTimed left st v sender t s)
]

handle_social-IsTimed :
    (topic : String) (session : Session) (timer : ℕ) (e : SocialEvent) (left : List String)
    (st : Typing)
    → sender_of timer st.pending ≡ none
    → IsTimed left st
    → IsTimed left (handle_social topic session timer e st)
unfolding handle_social
handle_social-IsTimed topic session timer e left st fresh v =
    elim (Bool-cases (is_ignored topic session e)) [
      | inl ignored ↦
          let same : handle_social topic session timer e st ≡ st = ground (arith, ignored) in
          subst (IsTimed left) (sym same) v
      | inr heeded ↦ elim (Option-cases e.sender) [
        | inl n ↦
            let same : handle_social topic session timer e st ≡ st = ground (arith, heeded, n) in
            subst (IsTimed left) (sym same) v
        | inr (sender, s) ↦
            let same : handle_social topic session timer e st ≡ show_typing timer sender st =
              ground (arith, heeded, s) in
            subst (IsTimed left) (sym same) (show_typing-IsTimed left st v sender timer fresh)
      ]
    ]

is_timer-timer_of :
    (u : String) (t : ℕ) (m : List (String × ℕ)) → timer_of u m ≡ some t → is_timer m t ≡ true
is_timer-timer_of u t [] h = cc
is_timer-timer_of u t ((w, k) ∷ m) h = ground (arith, is_timer-timer_of u t m, eqb_iff k t)

sender_of-filter :
    (p : ℕ → Bool) (t : ℕ) (l : List (ℕ × String))
    → sender_of t (filter (λ e. p e.0) l) ≡ (if p t then sender_of t l else none)
sender_of-filter p t [] = ground arith
sender_of-filter p t ((i, u) ∷ l) = elim (Bool-cases (eqb i t)) [
  | inl e ↦ let same = ap p ((eqb_iff i t).0 e) in ground (arith, e, same, sender_of-filter p t l)
  | inr e ↦ ground (arith, e, sender_of-filter p t l)
]

-- The cleanup stops every timer.
cleanup-stopped :
    (left : List String) (st : Typing)
    → IsTimed left st
    → (t : ℕ) → sender_of t (cleanup st).pending ≡ none
unfolding cleanup
cleanup-stopped left st v t = elim (Option-cases (sender_of t st.pending)) [
  | inl n ↦ ground (arith, n, sender_of-filter (λ k. not (is_timer st.timers k)) t st.pending)
  | inr (u, s) ↦
      let recorded = is_timer-timer_of u t st.timers (v.known t u s) in
      ground (arith, recorded, sender_of-filter (λ k. not (is_timer st.timers k)) t st.pending)
]

cleanup-IsTimed :
    (left : List String) (st : Typing) → IsTimed left st → IsTimed st.users (cleanup st)
unfolding cleanup
cleanup-IsTimed left st v = record {
  armed = λ u t h. absurd (ground (arith, h));
  known = λ t u h. absurd (ground (arith, h, cleanup-stopped left st v t));
  timed = λ u h l. absurd (ground (arith, h, l));
}

Reach-IsTimed :
    (session : Session) {topic : String} {left : List String} {st : Typing}
    → Reach session topic left st
    → IsTimed left st
Reach-IsTimed session (opened topic) = record {
  armed = λ u t h. cc;
  known = λ t u h. cc;
  timed = λ u h l. ground (arith, h);
}
Reach-IsTimed session (next {topic} {left} r (heard st timer e fresh)) =
    handle_social-IsTimed topic session timer e left st fresh (Reach-IsTimed session r)
Reach-IsTimed session (next {topic} {left} r (fired st t)) =
    timer_fired-IsTimed t left st (Reach-IsTimed session r)
Reach-IsTimed session (changed {topic} {left} {st} new_topic r) =
    cleanup-IsTimed left st (Reach-IsTimed session r)

-- Whatever events were heard, timers have fired, and chats were shown one after another: each user who
-- is shown as typing, and was not yet shown when the chat was last changed, has a pending timer, and
-- when it fires the user is no longer shown.
pub Reach-fades :
    (session : Session) {topic : String} {left : List String} {st : Typing}
    → Reach session topic left st
    → (u : String) → includes u st.users ≡ true
    → includes u left ≡ false
    → (t : ℕ) × (sender_of t st.pending ≡ some u) × (includes u (timer_fired t st).users ≡ false)
unfolding timer_fired
Reach-fades session {left = left} {st = st} r u h l =
    let v = Reach-IsTimed session r in
    let (t, recorded) = v.timed u h l in
    let armed = v.armed u t recorded in
    (t, armed, ground (arith, armed, includes-filter left st v u u st.users, eq_refl u))

-- Whoever is shown as typing when the chat is changed is still shown in the next one, and no timer
-- changes that.
cleanup_stays :
    (session : Session) {topic : String} {left : List String} {st : Typing}
    → Reach session topic left st
    → (t : ℕ) → (timer_fired t (cleanup st) ≡ cleanup st) × ((cleanup st).users ≡ st.users)
unfolding cleanup timer_fired
cleanup_stays session {left = left} {st = st} r t =
    let stopped = cleanup-stopped left st (Reach-IsTimed session r) t in
    (ground (arith, stopped), refl)
