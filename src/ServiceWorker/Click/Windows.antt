-- ===== src/ServiceWorker/Click/Windows.antt =====
-- Which window a click shows, and what a button clears.
use coop_messenger.Prelude.{
  ◌≡◌, ◌≢◌, refl, sym, String, Bool, true, false, ◌&&◌, Option, none, some, List, [], ◌∷◌, ◌++◌,
  any, count, find, ◌===◌, truthy, arith, eq_iff, eq_refl, Option-cases, inl, inr,
}
use coop_messenger.Events.{action_http}
use coop_messenger.Types.{Message, Action}
use coop_messenger.Db.{Dexie, Db}
use coop_messenger.Subscriptions.{sequence_of, in_sequence, is_new}
use coop_messenger.Subscriptions.Stored.Laws.{stored}
use coop_messenger.Hooks.Sequences.{stored-marked_new}
use coop_messenger.Subscriptions.Stored.{mark_notification_read_by_sequence_id}
use coop_messenger.ServiceWorker.Click.{
  Client, ClickEvent, ClickData, ClickEffect, focus, navigate, open_window, close_clicked,
  set_badge, perform_http, show_action_failed, show_topic, action_of, handle_action,
  clear_notification, handle_click,
}

-- A window comes to the front, or a new one opens.
abbrev pub is_shown : ClickEffect → Bool
is_shown (focus c) = true
is_shown (navigate c url) = false
is_shown (open_window url) = true
is_shown close_clicked = false
is_shown (set_badge n) = false
is_shown (perform_http a) = false
is_shown (show_action_failed a text) = false

-- A window is at the URL afterwards.
abbrev pub arrives : String → ClickEffect → Bool
arrives url (focus c) = c.url === url
arrives url (navigate c to) = to === url
arrives url (open_window to) = to === url
arrives url close_clicked = false
arrives url (set_badge n) = false
arrives url (perform_http a) = false
arrives url (show_action_failed a text) = false

abbrev pub opens : ClickEffect → Bool
opens (focus c) = false
opens (navigate c url) = false
opens (open_window url) = true
opens close_clicked = false
opens (set_badge n) = false
opens (perform_http a) = false
opens (show_action_failed a text) = false

abbrev pub closes : ClickEffect → Bool
closes (focus c) = false
closes (navigate c url) = false
closes (open_window url) = false
closes close_clicked = true
closes (set_badge n) = false
closes (perform_http a) = false
closes (show_action_failed a text) = false

-- A click beside the buttons.
abbrev pub plain_click : ClickData → ClickEvent
plain_click content = record { action = ""; content = some content }

-- An unread notification of the sequence of the message.
abbrev pub is_unread_of : ClickData → Message → Bool
is_unread_of content n =
    in_sequence content.subscription_id (sequence_of content.message) n && is_new n

find_sound :
    (url : String) (clients : List Client) (c : Client)
    → find (λ x. x.url === url) clients ≡ some c
    → (c.url === url) ≡ true
find_sound url [] c h = ground arith
find_sound url (x ∷ xs) c h = ground (arith, find_sound url xs c)

find_open :
    (p : Client → Bool) (clients : List Client) (c : Client)
    → find p clients ≡ some c
    → (elim clients [ [] ↦ true | x ∷ xs ↦ false ]) ≡ false
find_open p [] c h = ground arith
find_open p (x ∷ xs) c h = refl

-- The first window is sent to the topic, or a new one opens.
abbrev elsewhere : String → List Client → List ClickEffect
elsewhere route [] = open_window route ∷ []
elsewhere route (c ∷ cs) = focus c ∷ navigate c route ∷ []

topic_shown_elsewhere :
    (route : String) (clients : List Client)
    → (count is_shown (elsewhere route clients ++ close_clicked ∷ []) ≡ 1)
      × (any (arrives route) (elsewhere route clients ++ close_clicked ∷ []) ≡ true)
      × (any opens (elsewhere route clients ++ close_clicked ∷ [])
          ≡ (elim clients [ [] ↦ true | c ∷ cs ↦ false ]))
      × (any closes (elsewhere route clients ++ close_clicked ∷ []) ≡ true)
topic_shown_elsewhere route [] = rw (eq_refl route) (refl, refl, refl, refl)
topic_shown_elsewhere route (c ∷ cs) = rw (eq_refl route) (refl, ground arith, refl, refl)

show_topic-elsewhere :
    (route root : String) (clients : List Client)
    → find (λ x. x.url === route) clients ≡ none
    → find (λ x. x.url === root) clients ≡ none
    → show_topic route root clients ≡ elsewhere route clients
unfolding show_topic
show_topic-elsewhere route root [] e f = refl
show_topic-elsewhere route root (c ∷ cs) e f = ground (arith, e, f)

-- The effects of a click that ends in the topic's window.
topic_shown :
    (route root : String) (clients : List Client)
    → (count is_shown (show_topic route root clients ++ close_clicked ∷ []) ≡ 1)
      × (any (arrives route) (show_topic route root clients ++ close_clicked ∷ []) ≡ true)
      × (any opens (show_topic route root clients ++ close_clicked ∷ [])
          ≡ (elim clients [ [] ↦ true | c ∷ cs ↦ false ]))
      × (any closes (show_topic route root clients ++ close_clicked ∷ []) ≡ true)
unfolding show_topic
topic_shown route root clients = elim (Option-cases (find (λ x. x.url === route) clients)) [
  | inr (x, e) ↦
      let there : show_topic route root clients ≡ focus x ∷ [] = ground (arith, e) in
      rw (there, find_sound route clients x e)
        (refl, refl, sym (find_open (λ x. x.url === route) clients x e), refl)
  | inl e ↦ elim (Option-cases (find (λ x. x.url === root) clients)) [
    | inr (x, f) ↦
        let there : show_topic route root clients ≡ focus x ∷ navigate x route ∷ [] =
          ground (arith, e, f) in
        rw (there, eq_refl route)
          (refl, ground arith, sym (find_open (λ x. x.url === root) clients x f), refl)
    | inl f ↦ rw (show_topic-elsewhere route root clients e f) (topic_shown_elsewhere route clients)
  ]
]

module _ (d : Dexie) where
  -- A click on a message, not on a button, where the message has no link: exactly one window is
  -- shown, one is at the topic's route, a new one opens exactly if no window is open, the
  -- notification is closed, and the database stays as it is.
  handle_click-show_topic :
      (root : String) (clients : List Client) (failure : Option String) (content : ClickData)
      (db : Db d)
      → truthy content.message.click ≡ false
      → (count is_shown (handle_click d root clients failure (plain_click content) db).effects ≡ 1)
        × (any
              (arrives content.topic_route)
              (handle_click d root clients failure (plain_click content) db).effects
            ≡ true)
        × (any opens (handle_click d root clients failure (plain_click content) db).effects
            ≡ (elim clients [ [] ↦ true | c ∷ cs ↦ false ]))
        × (any closes (handle_click d root clients failure (plain_click content) db).effects ≡ true)
        × ((handle_click d root clients failure (plain_click content) db).db ≡ db)
  unfolding handle_click show_topic
  handle_click-show_topic root clients failure content db h =
      let (shown, arrived, opened, closed) = topic_shown content.topic_route root clients in
      rw h (shown, arrived, opened, closed, refl)

  -- A click on a button that sends a request and clears, where the subscription id and the sequence id
  -- are not empty: if the request succeeds, the notification is closed, the notifications of its
  -- sequence are marked as read, so that none of them is unread, and nothing else is changed; if it
  -- fails, it stays open and the database stays as it is.
  pub handle_click-clears :
      (root : String) (clients : List Client) (failure : Option String) (event : ClickEvent)
      (content : ClickData) (a : Action) (db : Db d)
      → event.content ≡ some content
      → event.action ≢ ""
      → action_of event.action content.message ≡ some a
      → a.action ≡ action_http
      → a.clear ≡ true
      → content.subscription_id ≢ ""
      → sequence_of content.message ≢ ""
      → (any closes (handle_click d root clients failure event db).effects
          ≡ (elim failure [ none ↦ true | some text ↦ false ]))
        × (stored d (is_unread_of content) (handle_click d root clients failure event db).db
            ≡ (elim failure [ none ↦ 0 | some text ↦ stored d (is_unread_of content) db ]))
        × ((handle_click d root clients failure event db).db ≡ (elim failure [
          | none ↦
              mark_notification_read_by_sequence_id d content.subscription_id
                (sequence_of content.message)
                db
          | some text ↦ db
        ]))
  unfolding handle_click clear_notification handle_action
  handle_click-clears root clients none event content a db e n f v cl s q =
      let labelled : (event.action === "") ≡ false = ground (arith, eq_iff event.action "") in
      let some_id : (content.subscription_id === "") ≡ false =
        ground (arith, eq_iff content.subscription_id "") in
      let some_sequence : (sequence_of content.message === "") ≡ false =
        ground (arith, eq_iff (sequence_of content.message) "") in
      rw (e, labelled, f, v, cl, some_id, some_sequence)
        (refl, stored-marked_new d content.subscription_id (sequence_of content.message) db, refl)
  handle_click-clears root clients (some text) event content a db e n f v cl s q =
      let labelled : (event.action === "") ≡ false = ground (arith, eq_iff event.action "") in
      rw (e, labelled, f, v) (refl, refl, refl)
