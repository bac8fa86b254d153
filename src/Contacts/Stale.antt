-- ===== src/Contacts/Stale.antt =====
-- An answer that comes late.
use coop_messenger.Prelude.{◌≡◌, refl, String, false, some, List, [], ◌∷◌, ltb}
use coop_messenger.Types.{Config, Session}
use coop_messenger.SignIn.{text_length}
use coop_messenger.Contacts.{
  Search, handle_query_change, handle_search, timer_fired, after_search, search_answered, render,
}
use coop_messenger.Contacts.Debounce.{Reach, opened, here, changed, fired, answered}

module _ (config : Config) (session : Session) (encode : String → String) where
  -- Two texts are typed, and both timers fire.
  abbrev both_searched : String → String → Search
  both_searched q r = timer_fired config session encode 1 1 (
      timer_fired config session encode 0 0
        (handle_query_change 1 r (handle_query_change 0 q opened)))

  -- If both texts have two characters or more, then it can come to this: the second text is in the field,
  -- nothing is waited for, and what is shown are the users found for the first text, whatever the
  -- server found for the second.
  search_answered_late :
      (q r : String) (users others : List String)
      → ltb (text_length q) 2 ≡ false
      → ltb (text_length r) 2 ≡ false
      → (s : Search) × Reach config session encode (r ∷ q ∷ []) (r ∷ q ∷ []) s
        × (s.query ≡ r)
        × (s.timers ≡ [])
        × (s.in_flight ≡ [])
        × (s.searching ≡ false)
        × (s.results ≡ users)
  unfolding handle_query_change render timer_fired handle_search after_search search_answered
  search_answered_late q r users others long_q long_r = (
    search_answered 0 (some users) (search_answered 1 (some others) (both_searched q r)),
    answered 0 (some users) (
        answered 1 (some others)
          (fired 1 1 r (fired 0 0 q (changed 1 r (changed 0 q here)) refl) (rw long_q refl))),
    rw (long_q, long_r) refl,
    rw (long_q, long_r) refl,
    rw (long_q, long_r) refl,
    rw (long_q, long_r) refl,
    rw (long_q, long_r) refl,
  )
