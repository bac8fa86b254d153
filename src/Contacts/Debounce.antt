-- ===== src/Contacts/Debounce.antt =====
-- How many searches typing leads to.
use coop_messenger.Prelude.{
  ℕ, ◌+◌, ◌≡◌, ◌∙◌, refl, String, Bool, false, not, ◌&&◌, ltb, Bool-cases, inl, inr, none, some,
  Option, List, [], ◌∷◌, ◌++◌, map, count, arith, if◌then◌else◌,
}
use coop_messenger.Types.{Config, Session}
use coop_messenger.SignIn.{text_length}
use coop_messenger.Account.{Request}
use coop_messenger.Account.Social.{search_users, add_contact}
use coop_messenger.Contacts.{
  Search, find_number, drop_number, handle_query_change, handle_search, timer_fired, handle_add,
  after_search, search_answered, after_add,
}

-- The dialog when it is opened.
abbrev pub opened : Search
opened = record {
  query = "";
  results = [];
  searching = false;
  sent_to = [];
  error = "";
  own_timer = none;
  timers = [];
  in_flight = [];
  requests = [];
}

abbrev pub texts : List (ℕ × String) → List String
texts = map (λ e. e.1)

count-texts-append :
    (p : String → Bool) (xs ys : List (ℕ × String))
    → count p (texts (xs ++ ys)) ≡ count p (texts xs) + count p (texts ys)
count-texts-append p [] ys = omega arith
count-texts-append p (x ∷ xs) ys = ground (arith, count-texts-append p xs ys)

count-drop_number :
    (p : String → Bool) (n : ℕ) (q : String) (l : List (ℕ × String))
    → find_number n l ≡ some q
    → count p (texts l) ≡ (if p q then 1 else 0) + count p (texts (drop_number n l))
count-drop_number p n q [] h = ground (arith, h)
count-drop_number p n q ((k, r) ∷ l) h = ground (arith, h, count-drop_number p n q l)

module _ (config : Config) (session : Session) (encode : String → String) where
  -- What can have happened since the dialog was opened, with the texts that were typed and those that
  -- `handleSearch` was called with, the latest first.
  pub data Reach : List String → List String → Search → Type 0 where
    here : Reach [] [] opened
    changed :
        {ts fs : List String} {s : Search} (timer : ℕ) (q : String)
        → Reach ts fs s
        → Reach (q ∷ ts) fs (handle_query_change timer q s)
    fired :
        {ts fs : List String} {s : Search} (timer number : ℕ) (q : String)
        → Reach ts fs s
        → find_number timer s.timers ≡ some q
        → Reach ts (q ∷ fs) (timer_fired config session encode timer number s)
    answered :
        {ts fs : List String} {s : Search} (number : ℕ) (answer : Option (List String))
        → Reach ts fs s
        → Reach ts fs (search_answered number answer s)
    adding :
        {ts fs : List String} {s : Search} (username : String)
        → Reach ts fs s
        → Reach ts fs (handle_add config session encode username s)
    added :
        {ts fs : List String} {s : Search} (username : String) (failure : Option String)
        → Reach ts fs s
        → Reach ts fs (after_add username failure s)

  -- What the steps other than typing leave alone.
  abbrev Keeps : Search → Search → Type 0
  Keeps s s' = (s'.own_timer ≡ s.own_timer) × (s'.timers ≡ s.timers)

  search_answered-Keeps :
      (number : ℕ) (answer : Option (List String)) (s : Search)
      → Keeps s (search_answered number answer s)
  unfolding search_answered after_search
  search_answered-Keeps number none s = ground arith
  search_answered-Keeps number (some users) s = ground arith

  after_add-Keeps :
      (username : String) (failure : Option String) (s : Search)
      → Keeps s (after_add username failure s)
  unfolding after_add
  after_add-Keeps username none s = (refl, refl)
  after_add-Keeps username (some msg) s = (refl, refl)

  handle_search-Keeps :
      (number : ℕ) (q : String) (s : Search)
      → ((handle_search config session encode number q s).timers ≡ s.timers)
        × ((handle_search config session encode number q s).own_timer ≡ s.own_timer)
  unfolding handle_search
  handle_search-Keeps number q s = ground arith

  timer_fired_timers :
      (timer number : ℕ) (q : String) (s : Search)
      → find_number timer s.timers ≡ some q
      → ((timer_fired config session encode timer number s).timers ≡ drop_number timer s.timers)
        × ((timer_fired config session encode timer number s).own_timer ≡ s.own_timer)
  unfolding timer_fired
  timer_fired_timers timer number q s h =
      rw (h, timer_fired)
        (handle_search-Keeps number q (record s { timers = drop_number timer s.timers }))

  own_timer_gone : {ts fs : List String} {s : Search} → Reach ts fs s → s.own_timer ≡ none
  unfolding handle_query_change handle_add
  own_timer_gone here = refl
  own_timer_gone (changed timer q r) = refl
  own_timer_gone {s} (fired {s = s'} timer number q r h) =
      ground (arith, timer_fired_timers timer number q s' h, own_timer_gone r)
  own_timer_gone (answered {s = s'} number answer r) =
      ground (arith, search_answered-Keeps number answer s', own_timer_gone r)
  own_timer_gone (adding username r) = own_timer_gone r
  own_timer_gone (added {s = s'} username failure r) =
      ground (arith, after_add-Keeps username failure s', own_timer_gone r)

  searched :
      {ts fs : List String} {s : Search} (p : String → Bool)
      → Reach ts fs s
      → count p ts ≡ count p (texts s.timers) + count p fs
  unfolding handle_query_change handle_add
  searched p here = omega arith
  searched p (changed {s = s'} timer q r) =
      ground
        (arith, own_timer_gone r, searched p r, count-texts-append p s'.timers ((timer, q) ∷ []))
  searched p (fired {s = s'} timer number q r h) = ground (
    arith,
    (timer_fired_timers timer number q s' h).0,
    searched p r,
    count-drop_number p timer q s'.timers h,
  )
  searched p (answered {s = s'} number answer r) =
      ground (arith, search_answered-Keeps number answer s', searched p r)
  searched p (adding username r) = searched p r
  searched p (added {s = s'} username failure r) =
      ground (arith, after_add-Keeps username failure s', searched p r)

  -- A text for which `handleSearch` asks the server.
  abbrev pub is_long : String → Bool
  is_long q = not (ltb (text_length q) 2)

  requests-search_answered :
      (number : ℕ) (answer : Option (List String)) (s : Search)
      → (search_answered number answer s).requests ≡ s.requests
  unfolding search_answered after_search
  requests-search_answered number none s = ground arith
  requests-search_answered number (some users) s = ground arith

  requests-after_add :
      (username : String) (failure : Option String) (s : Search)
      → (after_add username failure s).requests ≡ s.requests
  unfolding after_add
  requests-after_add username none s = refl
  requests-after_add username (some msg) s = refl

  requests-handle_search :
      (number : ℕ) (q : String) (s : Search)
      → (handle_search config session encode number q s).requests ≡ (
          if is_long q then s.requests ++ search_users encode config session q ∷ [] else s.requests)
  unfolding handle_search
  requests-handle_search number q s = ground arith

  requests-timer_fired :
      (timer number : ℕ) (q : String) (s : Search)
      → find_number timer s.timers ≡ some q
      → (timer_fired config session encode timer number s).requests ≡ (
          if is_long q then s.requests ++ search_users encode config session q ∷ [] else s.requests)
  unfolding timer_fired
  requests-timer_fired timer number q s h =
      rw (h, timer_fired)
        (requests-handle_search number q (record s { timers = drop_number timer s.timers }))

  count-append_one :
      (p : Request → Bool) (rs : List Request) (r : Request)
      → count p (rs ++ r ∷ []) ≡ (if p r then 1 else 0) + count p rs
  count-append_one p [] r = ground arith
  count-append_one p (x ∷ rs) r = ground (arith, count-append_one p rs r)

  requested :
      {ts fs : List String} {s : Search} (p : Request → Bool)
      → ((username : String) → p (add_contact config session username) ≡ false)
      → Reach ts fs s
      → count p s.requests ≡ count (λ q. is_long q && p (search_users encode config session q)) fs
  unfolding handle_query_change handle_add
  requested p no_add here = refl
  requested p no_add (changed timer q r) = requested p no_add r
  requested p no_add (fired {s = s'} timer number q r h) = elim (Bool-cases (is_long q)) [
    | inl long ↦
        rw (requests-timer_fired timer number q s' h, long)
          (count-append_one p s'.requests (search_users encode config session q)
            ∙ rw (requested p no_add r) (ground arith))
    | inr short ↦
        rw (requests-timer_fired timer number q s' h, short, requested p no_add r) (omega arith)
  ]
  requested p no_add (answered {s = s'} number answer r) =
      rw (requests-search_answered number answer s') (requested p no_add r)
  requested p no_add (adding {s = s'} username r) =
      count-append_one p s'.requests (add_contact config session username)
      ∙ rw (no_add username, requested p no_add r) (omega arith)
  requested p no_add (added {s = s'} username failure r) =
      rw (requests-after_add username failure s') (requested p no_add r)

  -- No timer is ever cleared: of all texts that were typed, counted by any test, each either still has
  -- its timer or was handed to the search. And of the texts that were handed to it, those of two
  -- characters or more, and no others, were each asked of the server: the requests besides those that
  -- add a contact, counted by any test, are the requests for these texts. The search is delayed, but not
  -- debounced.
  pub Reach-searched :
      (ts fs : List String) (s : Search) (p : String → Bool) (p' : Request → Bool)
      → ((username : String) → p' (add_contact config session username) ≡ false)
      → Reach ts fs s
      → (count p ts ≡ count p (texts s.timers) + count p fs)
        × (count p' s.requests
            ≡ count
                (λ q. not (ltb (text_length q) 2) && p' (search_users encode config session q))
                fs)
  Reach-searched ts fs s p p' no_add r = (searched p r, requested p' no_add r)
