-- ===== src/Connection/Life.antt =====
-- The life of a connection: the browser opens and closes its sockets and fires its timers, the
-- server sends, and the client closes it, in any order.
use coop_messenger.Prelude.{
  ℕ, ◌+◌, ◌≤◌, ◌≡◌, refl, Bool, true, false, not, Option, none, some, List, [], ◌∷◌, arith, eqb,
  any, all, filter, length, if◌then◌else◌,
}
use coop_messenger.Connection.{Connection, start, on_open, Frame, on_message, on_close, close}

-- A connection with the sockets whose close event is still to come and the timers still to fire.
pub record Life : Type 0 where
  pub conn : Connection
  pub live : List ℕ
  pub armed : List ℕ

abbrev pub has : ℕ → List ℕ → Bool
has k = any (λ x. eqb x k)

abbrev pub drop_id : ℕ → List ℕ → List ℕ
drop_id k = filter (λ x. not (eqb x k))

-- `clearTimeout(this.retryTimeout)`
abbrev pub disarm : Option ℕ → List ℕ → List ℕ
disarm none armed = armed
disarm (some t) armed = drop_id t armed

abbrev pub after_close_event : Bool → ℕ → ℕ → Life → Life
after_close_event clean s t l = record {
  conn = (on_close clean t l.conn).0;
  live = drop_id s l.live;
  armed = if clean then l.armed else t ∷ l.armed;
}

abbrev pub after_timer : ℕ → ℕ → Life → Life
after_timer t s l = record { conn = start s l.conn; live = s ∷ l.live; armed = drop_id t l.armed }

abbrev pub after_close : Life → Life
after_close l = record {
  conn = (close l.conn).0;
  live = l.live;
  armed = disarm l.conn.retry_timeout l.armed;
}

pub data Step : Life → Life → Type 0 where
  opened : (l : Life) → Step l (record l { conn = (on_open l.conn).0 })
  received : (l : Life) (f : Option Frame) → Step l (record l { conn = (on_message f l.conn).0 })
  closed :
      (l : Life) (clean : Bool) (s t : ℕ)
      → has s l.live ≡ true
      → Step l (after_close_event clean s t l)
  fired : (l : Life) (t s : ℕ) → has t l.armed ≡ true → Step l (after_timer t s l)
  shut : (l : Life) → Step l (after_close l)

pub data Reach (l : Life) : Life → Type 0 where
  here : Reach l l
  next : {m n : Life} → Reach l m → Step m n → Reach l n

-- A connection that was just started.
abbrev pub started : ℕ → Connection → Life
started s c = record { conn = start s c; live = s ∷ []; armed = [] }

abbrev pub is_timer : Option ℕ → ℕ → Bool
is_timer none t = false
is_timer (some u) t = eqb t u

-- A socket or a pending retry, and not both; a pending retry is the one that `close` would clear.
pub record IsSingle (l : Life) : Type 0 where
  pub one : length l.live + length l.armed ≤ 1
  pub known : all (is_timer l.conn.retry_timeout) l.armed ≡ true

length-drop_id : (k : ℕ) (l : List ℕ) → has k l ≡ true → length (drop_id k l) + 1 ≤ length l
length-drop_id k [] h = ground arith
length-drop_id k (x ∷ l) h = ground (arith, length-drop_id k l, length-drop_id-le k l)
  where
    length-drop_id-le : (k : ℕ) (l : List ℕ) → length (drop_id k l) ≤ length l
    length-drop_id-le k [] = omega arith
    length-drop_id-le k (x ∷ l) = ground (arith, length-drop_id-le k l)

all-drop_id :
    (o : Option ℕ) (k : ℕ) (l : List ℕ)
    → all (is_timer o) l ≡ true
    → all (is_timer o) (drop_id k l) ≡ true
all-drop_id o k [] h = refl
all-drop_id o k (x ∷ l) h = ground (arith, all-drop_id o k l)

disarm_known : (o : Option ℕ) (l : List ℕ) → all (is_timer o) l ≡ true → disarm o l ≡ []
disarm_known none [] h = refl
disarm_known none (x ∷ l) h = ground arith
disarm_known (some t) [] h = refl
disarm_known (some t) (x ∷ l) h = ground (arith, disarm_known (some t) l)

all_of_empty : (o : Option ℕ) (l : List ℕ) → length l ≡ 0 → all (is_timer o) l ≡ true
all_of_empty o [] h = refl
all_of_empty o (x ∷ l) h = absurd (omega arith)

retry_timeout-on_message :
    (f : Option Frame) (c : Connection) → (on_message f c).0.retry_timeout ≡ c.retry_timeout
unfolding on_message
retry_timeout-on_message none c = refl
retry_timeout-on_message (some f) c = ground arith

Step-IsSingle : {l m : Life} → Step l m → IsSingle l → IsSingle m
unfolding on_open start on_close close
Step-IsSingle (opened l) v = ground arith
Step-IsSingle (received l f) v = record {
  one = v.one;
  known = rw (retry_timeout-on_message f l.conn) v.known;
}
Step-IsSingle (closed l true s t h) v = ground (arith, length-drop_id s l.live h)
Step-IsSingle (closed l false s t h) v =
    let none_armed : length l.armed ≡ 0 = omega (arith, v.one, length-drop_id s l.live h) in
    record {
      one = omega (arith, v.one, length-drop_id s l.live h);
      known = ground (arith, all_of_empty (some t) l.armed none_armed);
    }
Step-IsSingle (fired l t s h) v = record {
  one = omega (arith, v.one, length-drop_id t l.armed h);
  known = all-drop_id l.conn.retry_timeout t l.armed v.known;
}
Step-IsSingle (shut l) v =
    let disarmed = disarm_known l.conn.retry_timeout l.armed v.known in
    record { one = rw disarmed (omega (arith, v.one)); known = rw disarmed refl }

-- Whatever happens after a connection was started, it never has two sockets, nor a socket and a
-- pending retry, and closing it leaves no retry pending.
pub Reach-IsSingle :
    (s : ℕ) (c : Connection) {l : Life}
    → Reach (started s c) l
    → (length l.live + length l.armed ≤ 1) × ((after_close l).armed ≡ [])
Reach-IsSingle s c {l} r =
    let v = go r in (v.one, disarm_known l.conn.retry_timeout l.armed v.known)
  where
    go : {l : Life} → Reach (started s c) l → IsSingle l
    go here = record { one = omega arith; known = refl }
    go (next r st) = Step-IsSingle st (go r)

-- A connection that the client has closed opens again: if its socket then ends with a close event
-- that is not clean, a retry is set, and when it fires there is a new socket.
pub close_reopens :
    (l : Life) (s t s' : ℕ)
    → l.live ≡ s ∷ []
    → (m : Life) × Reach (after_close l) m × (m.live ≡ s' ∷ []) × (m.conn.ws ≡ some s')
unfolding start
close_reopens l s t s' h =
    let died = after_close_event false s t (after_close l) in
    (
      after_timer t s' died,
      next (next here (closed (after_close l) false s t (rw h (ground arith))))
          (fired died t s' (ground arith)),
      rw h (ground arith),
      refl,
    )
