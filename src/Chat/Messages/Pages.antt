-- ===== src/Chat/Messages/Pages.antt =====
-- Which of the stored messages an open chat shows.
use coop_messenger.Prelude.{
  ℕ, zero, suc, ◌+◌, ◌≡◌, refl, sym, ap, ◌∙◌, String, Bool, true, false, ◌&&◌, List, [], ◌∷◌,
  filter, count, count-filter, count-append, count-reverse, length, take, drop, take-append-drop,
  reverse, all, all-reverse, ltb, leb, arith, Bool-cases, inl, inr,
}
use coop_messenger.Types.{Message}
use coop_messenger.Db.{Dexie, Db}
use coop_messenger.Table.Order.{
  IsTimeOrder, ascending, descending, filter-ascending, filter-descending, reverse-ascending,
  reverse-descending, none_newer, descending-append,
}
use coop_messenger.Subscriptions.{in_subscription}
use coop_messenger.Subscriptions.Reads.{get_notifications}
use coop_messenger.Subscriptions.Stored.Laws.{stored}
use coop_messenger.Chat.Messages.{is_shown, all_messages, visible}

-- What is not shown of a list that comes newest first.
abbrev pub hidden : ℕ → List Message → List Message
hidden max_count notifications = drop max_count (all_messages notifications)

take_all : (n : ℕ) (ms : List Message) → ltb n (length ms) ≡ false → take n ms ≡ ms
take_all zero [] h = refl
take_all zero (m ∷ ms) h = ground (arith, h)
take_all (suc n) [] h = refl
take_all (suc n) (m ∷ ms) h = ap (m ∷◌) (take_all n ms (ground (arith, h)))

-- Both branches cut off what is older.
visible-take :
    (max_count : ℕ) (ms : List Message)
    → visible max_count ms ≡ reverse (take max_count (all_messages ms))
unfolding visible
visible-take max_count ms = elim (Bool-cases (ltb max_count (length (all_messages ms)))) [
  | inl more ↦ rw more refl
  | inr none ↦ rw (none, take_all max_count (all_messages ms) none) refl
]

count-visible-hidden :
    (p : Message → Bool) (n : ℕ) (ms : List Message)
    → count p (visible n ms) + count p (hidden n ms) ≡ count (λ m. is_shown m && p m) ms
count-visible-hidden p n ms =
    rw (visible-take n ms, count-reverse p (take n (all_messages ms)))
      (sym (count-append p (take n (all_messages ms)) (drop n (all_messages ms)))
        ∙ ap (count p) (take-append-drop n (all_messages ms))
        ∙ count-filter p is_shown ms)

visible-newest :
    (n : ℕ) (ms : List Message)
    → descending ms ≡ true
    → (ascending (visible n ms) ≡ true) × (none_newer (visible n ms) (hidden n ms) ≡ true)
visible-newest n ms h = rw (visible-take n ms) (
  reverse-ascending (take n (all_messages ms)) parts.0,
  all-reverse (λ (x : Message). all (λ (y : Message). leb y.time x.time) (hidden n ms))
        (take n (all_messages ms))
      ∙ parts.1,
)
  where
    parts :
        (descending (take n (all_messages ms)) ≡ true)
        × (none_newer (take n (all_messages ms)) (hidden n ms) ≡ true)
    parts =
        descending-append (take n (all_messages ms)) (drop n (all_messages ms))
          (ap descending (take-append-drop n (all_messages ms)) ∙ filter-descending is_shown ms h)

module _ (d : Dexie) (order : List Message → List Message) (o : IsTimeOrder order) where
  -- Of the stored messages of a conversation, an open chat shows the latest `n`, oldest first: no
  -- message that it leaves out is newer than one that it shows, and of the messages and nudges of
  -- the conversation that satisfy any test, each stored one is either shown or left out.
  pub get_notifications-visible :
      (id : String) (n : ℕ) (db : Db d)
      → let ms : List Message = get_notifications d order id db in
        (ascending (visible n ms) ≡ true)
        × (none_newer (visible n ms) (hidden n ms) ≡ true)
        × ((p : Message → Bool)
            → count p (visible n ms) + count p (hidden n ms)
              ≡ stored d (λ m. in_subscription id m && (is_shown m && p m)) db)
  unfolding get_notifications
  get_notifications-visible id n db =
      let h : descending (get_notifications d order id db) ≡ true =
        reverse-descending
          (filter (in_subscription id) (order (d.notifications.to_array db.notifications)))
          (filter-ascending (in_subscription id) (order (d.notifications.to_array db.notifications))
            (o.ordered (d.notifications.to_array db.notifications))) in
      let newest = visible-newest n (get_notifications d order id db) h in
      (
        newest.0,
        newest.1,
        λ p.
            count-visible-hidden p n (get_notifications d order id db)
            ∙ count-reverse (λ m. is_shown m && p m)
                (filter (in_subscription id) (order (d.notifications.to_array db.notifications)))
            ∙ count-filter (λ m. is_shown m && p m) (in_subscription id)
                (order (d.notifications.to_array db.notifications))
            ∙ o.same (λ m. in_subscription id m && (is_shown m && p m))
                (d.notifications.to_array db.notifications),
      )
