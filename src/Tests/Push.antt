-- ===== src/Tests/Push.antt =====
-- useWebPushListener of web/src/components/hooks.js, on data.
use coop_messenger.Prelude.{◌≡◌, refl, String, Bool, true, false, none, some, List, [], ◌∷◌}
use coop_messenger.Db.{assoc_dexie}
use coop_messenger.WebPush.{PushSubscription}
use coop_messenger.WebPush.Listener.{Listener, Run, run_effects}
use coop_messenger.WebPush.Listener.Endpoints.{all_named, run_effects-all_named}
use coop_messenger.Tests.{home, alice, some_db}

abbrev same_text : String → String
same_text s = s

-- The browser gives another endpoint at every subscription.
abbrev push : String → PushSubscription
push endpoint = record { endpoint = endpoint; auth = "a"; p256dh = "k" }

abbrev run : List String → String → Bool → Run assoc_dexie home same_text alice
run topics endpoint online = record {
  topics = some topics;
  push_possible = true;
  registered = true;
  answer = some (push endpoint);
  db = some_db;
  succeeds = λ r. online;
  replaced = none;
}

-- enabled while the server cannot be reached, tried again, and disabled
abbrev runs : List (Run assoc_dexie home same_text alice)
runs =
    run ("chat" ∷ []) "https://push/1" false
    ∷ run ("chat" ∷ []) "https://push/2" true
    ∷ run [] "https://push/3" true
    ∷ []

abbrev unsubscribed : Listener
unsubscribed = record { prev_update = none; existing = none; requests = [] }

run_effects-all_named_example :
    all_named (run_effects assoc_dexie home same_text alice unsubscribed runs) ≡ true
run_effects-all_named_example =
    run_effects-all_named assoc_dexie home same_text alice runs unsubscribed refl refl
