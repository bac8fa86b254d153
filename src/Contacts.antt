-- ===== src/Contacts.antt =====
-- web/src/components/ContactAdd.jsx: the search for users to add as contacts. The browser's timers and
-- the answers of the server come in any order.
pub mod Debounce
pub mod Stale
use text.Mathlib.Text.{starts_with}
use Prim.Native.String
use coop_messenger.Prelude.{
  ℕ, ◌+◌, ◌≡◌, String, Bool, true, false, ◌||◌, Option, none, some, List, [], ◌∷◌, ◌++◌, filter,
  not, eqb, ltb, includes, if◌then◌else◌,
}
use coop_messenger.Types.{Config, Session}
use coop_messenger.SignIn.{text_length}
use coop_messenger.Account.{Request}
use coop_messenger.Account.Social.{search_users, add_contact}

-- `s.includes(text)`
abbrev pub contains : String → String → Bool
contains String.[] text = starts_with "" text
contains (String.◌∷◌ c s) text = starts_with (String.◌∷◌ c s) text || contains s text

-- The state of the dialog, users by their names and texts by their keys; `own_timer` is the property
-- `_timer` of the function that the last rendering made. Besides: the timers that the browser still has
-- to fire, each with the text that its callback captured, the searches that are not answered yet, each
-- with its number, and what was requested.
pub record Search : Type 0 where
  pub query : String
  pub results : List String
  pub searching : Bool
  pub sent_to : List String
  pub error : String
  pub own_timer : Option ℕ
  pub timers : List (ℕ × String)
  pub in_flight : List (ℕ × String)
  pub requests : List Request

abbrev pub clear_timeout : Option ℕ → List (ℕ × String) → List (ℕ × String)
clear_timeout none timers = timers
clear_timeout (some t) timers = filter (λ p. not (eqb p.0 t)) timers

abbrev pub find_number : ℕ → List (ℕ × String) → Option String
find_number n [] = none
find_number n ((k, q) ∷ rest) = if eqb k n then some q else find_number n rest

-- Takes the first entry of a number out.
abbrev pub drop_number : ℕ → List (ℕ × String) → List (ℕ × String)
drop_number n [] = []
drop_number n ((k, q) ∷ rest) = if eqb k n then rest else (k, q) ∷ drop_number n rest

-- Each rendering makes the function `handleQueryChange` anew, without the property.
unfoldable pub render : Search → Search
render s = record s { own_timer = none }

-- The handler; `timer` is what `setTimeout` returns. The new query is another one, so the component is
-- rendered again.
unfoldable pub handle_query_change : ℕ → String → Search → Search
unfolding render
handle_query_change timer q s = render (record s {
  query = q;
  timers = clear_timeout s.own_timer s.timers ++ (timer, q) ∷ [];
  own_timer = some timer;
})

module _ (config : Config) (session : Session) (encode : String → String) where
  -- Up to the `await`; `number` is that of the search.
  unfoldable pub handle_search : ℕ → String → Search → Search
  unfolding search_users
  handle_search number q s = if ltb (text_length q) 2 then record s { results = [] } else record s {
    searching = true;
    error = "";
    in_flight = s.in_flight ++ (number, q) ∷ [];
    requests = s.requests ++ search_users encode config session q ∷ [];
  }

  unfoldable pub timer_fired : ℕ → ℕ → Search → Search
  unfolding handle_search
  timer_fired timer number s = elim (find_number timer s.timers) [
    | none ↦ s
    | some q ↦ handle_search number q (record s { timers = drop_number timer s.timers })
  ]

  -- `handleAdd`, up to the `await`
  unfoldable pub handle_add : String → Search → Search
  unfolding add_contact
  handle_add username s = record s {
    error = "";
    requests = s.requests ++ add_contact config session username ∷ [];
  }

-- What stands behind the `await` of a search: the users, or none where it fails.
unfoldable pub after_search : Option (List String) → Search → Search
after_search (some users) s = record s { results = users; searching = false }
after_search none s = record s { error = "contacts_search_error"; searching = false }

unfoldable pub search_answered : ℕ → Option (List String) → Search → Search
unfolding after_search
search_answered number answer s = elim (find_number number s.in_flight) [
  | none ↦ s
  | some q ↦ after_search answer (record s { in_flight = drop_number number s.in_flight })
]

-- The text for the message of an error.
unfoldable pub add_error : String → String
add_error msg =
    if contains msg "already exists"
    then "contacts_already_exists"
    else if contains msg "invite"
    then "contacts_invite_only"
    else "contacts_add_error"

-- What stands behind the `await` of `handleAdd`, with the message of the error if it fails.
unfoldable pub after_add : String → Option String → Search → Search
unfolding add_error
after_add username none s = record s {
  sent_to = if includes username s.sent_to then s.sent_to else s.sent_to ++ username ∷ [];
}
after_add username (some msg) s = record s { error = add_error msg }
