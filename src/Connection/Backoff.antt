-- ===== src/Connection/Backoff.antt =====
-- What a connection asks of the browser and reports to its listeners.
use coop_messenger.Prelude.{
  filter, if◌then◌else◌, ℕ, zero, suc, ◌+◌, ◌*◌, ◌≤◌, String, ◌≡◌, refl, Bool, true, false, none,
  some, [], ◌∷◌, arith, ◌===◌, eq_iff, Bool-cases, inl, inr,
}
use native.Mathlib.Numerals.{add-one}
use coop_messenger.Events.{event_open, is_notification_event, is_coop_social_event}
use coop_messenger.Connection.{
  Connection, Effect, set_timeout, state_changed, connecting, notification_received,
  social_event_received, close_socket, clear_timeout, retry_seconds, on_open, Frame,
  relevant_and_valid, on_message, on_close,
}

retry_seconds_bounds :
    (n : ℕ)
    → (5 ≤ retry_seconds n) × (retry_seconds n ≤ 120) × (retry_seconds n ≤ retry_seconds (suc n))
unfolding retry_seconds
retry_seconds_bounds zero = omega arith
retry_seconds_bounds (suc zero) = omega arith
retry_seconds_bounds (suc (suc zero)) = omega arith
retry_seconds_bounds (suc (suc (suc zero))) = omega arith
retry_seconds_bounds (suc (suc (suc (suc zero)))) = omega arith
retry_seconds_bounds (suc (suc (suc (suc (suc n))))) = omega arith

-- The delay in milliseconds after a connection died.
abbrev pub delay : Connection → ℕ
delay c = retry_seconds c.retry_count * 1000

-- When a connection dies, a retry is set after 5 to 120 seconds and the listener hears that it is
-- connecting; the next delay, if it dies again, is not shorter, and once a connection is open again
-- the delay is back at 5 seconds.
pub on_close_backoff :
    (timer : ℕ) (c : Connection)
    → ((on_close false timer c).1
        ≡ set_timeout timer (delay c) ∷ state_changed c.subscription_id connecting ∷ [])
      × (5000 ≤ delay c)
      × (delay c ≤ 120000)
      × (delay c ≤ delay (on_close false timer c).0)
      × (delay (on_open (on_close false timer c).0).0 ≡ 5000)
unfolding on_close on_open retry_seconds
on_close_backoff timer c =
    let (low, high, grows) = retry_seconds_bounds c.retry_count in
    (refl, omega arith, omega arith, subst_delay c.retry_count (omega arith), refl)
  where
    subst_delay :
        (n : ℕ)
        → retry_seconds n * 1000 ≤ retry_seconds (suc n) * 1000
        → retry_seconds n * 1000 ≤ retry_seconds (n + 1) * 1000
    subst_delay n h = rw add-one h

notification_event_only :
    (event : String)
    → is_notification_event event ≡ true
    → ((event === event_open) ≡ false) × (is_coop_social_event event ≡ false)
unfolding is_notification_event is_coop_social_event
notification_event_only event h = (apart event_open refl, apart "coop_typing" refl)
  where
    apart : (other : String) → is_notification_event other ≡ false → (event === other) ≡ false
    apart other no_event = elim (Bool-cases (event === other)) [
      | inl same ↦
          let e : event ≡ other = (eq_iff event other).0 same in
          let h' : is_notification_event other ≡ true = rw e at h in cc
      | inr e ↦ e
    ]

abbrev pub is_notification : Effect → Bool
is_notification (notification_received id m) = true
is_notification (close_socket s) = false
is_notification (clear_timeout t) = false
is_notification (set_timeout t n) = false
is_notification (state_changed id s) = false
is_notification (social_event_received id m) = false

pub on_message_notification :
    (f : Frame) (c : Connection)
    → relevant_and_valid f ≡ true
    → on_message (some f) c ≡ (
      record c { since = some f.message.id },
      notification_received c.subscription_id f.message ∷ [],
    )
unfolding on_message
on_message_notification f c h =
    let only = notification_event_only f.message.event (ground arith) in rw (only.0, only.1, h) refl

-- A frame of a notification event with "id" and "time" is handed to the listener, and its id becomes
-- the point from which a reconnect resumes. Any other frame, one that is not JSON included, leaves
-- the connection as it is and no notification is handed on.
on_message_lem :
    (f : Frame) (c : Connection)
    → ((on_message (some f) c).0
        ≡ (if relevant_and_valid f then record c { since = some f.message.id } else c))
      × (filter is_notification (on_message (some f) c).1 ≡ (
          if relevant_and_valid f
          then notification_received c.subscription_id f.message ∷ []
          else []))
      × (on_message none c ≡ (c, []))
unfolding on_message
on_message_lem f c = elim (Bool-cases (relevant_and_valid f)) [
  | inl h ↦
      let only = notification_event_only f.message.event (ground arith) in
      (ground (arith, only), ground (arith, only), refl)
  | inr h ↦ (ground (arith, h), ground (arith, h), refl)
]
