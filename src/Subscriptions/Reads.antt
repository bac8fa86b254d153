-- ===== src/Subscriptions/Reads.antt =====
-- web/src/app/SubscriptionManager.js: the reads that are sorted by time. `orderBy("time")` of Dexie is
-- the argument `order`.
use coop_messenger.Prelude.{String, Option, none, some, List, [], ◌∷◌, filter, reverse}
use coop_messenger.Types.{Message, Subscription}
use coop_messenger.Db.{Dexie, Db}
use coop_messenger.Subscriptions.{in_subscription}

module _ (d : Dexie) where
  -- The first row of the table.
  unfoldable pub first : Db d → Option Subscription
  first db = elim (d.subscriptions.to_array db.subscriptions) [ [] ↦ none | s ∷ ss ↦ some s ]

  unfoldable pub get_notifications : (List Message → List Message) → String → Db d → List Message
  get_notifications order id db =
      reverse (filter (in_subscription id) (order (d.notifications.to_array db.notifications)))

  unfoldable pub get_all_notifications : (List Message → List Message) → Db d → List Message
  get_all_notifications order db = reverse (order (d.notifications.to_array db.notifications))
