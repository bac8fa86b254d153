-- ===== src/Commands/Input/Throttle.antt =====
-- How often the client says that its user is typing.
use coop_messenger.Prelude.{
  ℕ, ◌+◌, ◌-◌, ◌≡◌, refl, ap, ◌∙◌, String, Bool, true, false, ◌&&◌, List, [], ◌∷◌, all, any, ltb,
  leb, ◌===◌, if◌then◌else◌, arith, Bool-cases, inl, inr,
}
use coop_messenger.Commands.Input.{typing_interval, Effect, send_typing_event}

abbrev none_sent : List Effect → Bool
none_sent [] = true
none_sent (e ∷ es) = false

-- The times at which an event is sent, where keys are pressed at the given times.
unfoldable pub typing_times : String → ℕ → List ℕ → List ℕ
unfolding send_typing_event
typing_times topic last [] = []
typing_times topic last (now ∷ times) =
    let sent = send_typing_event topic now last in
    let later = typing_times topic sent.0 times in if none_sent sent.1 then later else now ∷ later

-- Every event comes at least one interval after the one before it.
abbrev pub spaced : ℕ → List ℕ → Bool
spaced last [] = true
spaced last (t ∷ ts) = leb (last + typing_interval) t && spaced t ts

-- The times never decrease.
abbrev pub rising : ℕ → List ℕ → Bool
rising last [] = true
rising last (t ∷ ts) = leb last t && rising t ts

-- The event came at the time or less than one interval before it.
abbrev pub near : ℕ → ℕ → Bool
near t e = leb e t && ltb (t - e) typing_interval

-- Each time has an event near it.
abbrev pub covered : List ℕ → List ℕ → Bool
covered events times = all (λ t. any (near t) events) times

module _ (topic : String) (h : topic === "" ≡ false) where
  typing_times_early :
      (last now : ℕ) (times : List ℕ)
      → ltb (now - last) typing_interval ≡ true
      → typing_times topic last (now ∷ times) ≡ typing_times topic last times
  unfolding typing_times send_typing_event
  typing_times_early last now times e = rw (h, e) refl

  typing_times_due :
      (last now : ℕ) (times : List ℕ)
      → ltb (now - last) typing_interval ≡ false
      → typing_times topic last (now ∷ times) ≡ now ∷ typing_times topic now times
  unfolding typing_times send_typing_event
  typing_times_due last now times e = rw (h, e) refl

  spaced-typing_times :
      (last : ℕ) (times : List ℕ) → spaced last (typing_times topic last times) ≡ true
  unfolding typing_times
  spaced-typing_times last [] = refl
  spaced-typing_times last (now ∷ times) = elim (Bool-cases (ltb (now - last) typing_interval)) [
    | inl early ↦ rw (typing_times_early last now times early) (spaced-typing_times last times)
    | inr due ↦
        rw (typing_times_due last now times due)
          (ground (arith, due, spaced-typing_times now times))
  ]

  near_before :
      (last : ℕ) (events times : List ℕ)
      → covered events times ≡ true
      → covered (last ∷ events) times ≡ true
  near_before last events [] e = refl
  near_before last events (t ∷ ts) e = ground (arith, near_before last events ts)

  covers-typing_times :
      (last before : ℕ) (times : List ℕ)
      → leb last before ≡ true
      → rising before times ≡ true
      → covered (last ∷ typing_times topic last times) times ≡ true
  unfolding typing_times
  covers-typing_times last before [] l r = refl
  covers-typing_times last before (now ∷ times) l r =
      elim (Bool-cases (ltb (now - last) typing_interval)) [
        | inl early ↦
            ap (λ events. covered (last ∷ events) (now ∷ times))
              (typing_times_early last now times early)
            ∙ (ground (arith, covers-typing_times last now times))
        | inr due ↦
            ap (λ events. covered (last ∷ events) (now ∷ times))
              (typing_times_due last now times due)
            ∙ (ground (
              arith,
              near_before last (now ∷ typing_times topic now times) times
                  (covers-typing_times now now times (ground arith) (ground arith)),
            ))
      ]

  -- In a chat with a topic, where the times of the key presses never decrease, two typing events are
  -- at least three seconds apart, and each press has an event, or the last one from before, less than
  -- three seconds before it or at the same time.
  send_typing_event_spaced :
      (last : ℕ) (times : List ℕ)
      → rising last times ≡ true
      → (spaced last (typing_times topic last times) ≡ true)
        × (covered (last ∷ typing_times topic last times) times ≡ true)
  send_typing_event_spaced last times r =
      (spaced-typing_times last times, covers-typing_times last last times (ground arith) r)
