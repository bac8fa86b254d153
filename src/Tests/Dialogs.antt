-- ===== src/Tests/Dialogs.antt =====
-- web/src/components/SubscribeDialog.jsx, ContactAdd.jsx, Preferences.jsx, and the dialogs of
-- Account.jsx, on data.
use coop_messenger.Prelude.{
  ℕ, ◌+◌, ◌≡◌, refl, String, true, false, Option, none, some, List, [], ◌∷◌, ◌++◌, count, ◌===◌,
  if◌then◌else◌, not, ◌&&◌, ltb,
}
use coop_messenger.Db.{assoc_dexie}
use coop_messenger.Errors.{AppError, ok, incorrect_password}
use coop_messenger.Users as Users
use coop_messenger.Account.{Request}
use coop_messenger.Account.Social.{search_users, add_contact}
use coop_messenger.SignIn.{text_length}
use coop_messenger.Account.Requests.{update_settings}
use coop_messenger.Account.Sync.{Account, sync}
use coop_messenger.Utils.Urls.{topic_url}
use coop_messenger.Joining.{Client, request}
use coop_messenger.Joining.Dialog.{Dialog, auth_request, button_enabled, says_sent, valid_topic}
use coop_messenger.Joining.Dialog.Access.{
  Entered, joining, is_granted, checked_user, enter, enter-Entered,
}
use coop_messenger.Joining.Dialog.Sent as Sent
use coop_messenger.Joining.Dialog.Sent.{sent_for_all}
use coop_messenger.Contacts.{Search, handle_query_change, timer_fired}
use coop_messenger.Contacts.Debounce.{opened, here, changed, fired, texts, Reach-searched}
use coop_messenger.Settings.{
  UserDialog, sound, handle_change, add_button_enabled, handle_dialog_submit, valid_url,
}
use coop_messenger.Settings.Shared.{Reads, payload_of, changed_account, handle_change-Reads}
use coop_messenger.Settings.Servers.{typed_user, handle_dialog_submit-added}
use coop_messenger.Account.Dialogs.{Form, Page, change_password, request_of, handle_submit}
use coop_messenger.Account.Dialogs.Told.{Told, sent_requests, handle_submit-Told}
use coop_messenger.Account.Phone.{
  PhoneDialog, new_dialog, number_typed, submitted, settles, verifying, valid_number,
}
use coop_messenger.Account.Phone as Phone
use coop_messenger.Account.Phone.Verified as Verified
use coop_messenger.Account.Phone.Verified.{all_called, Reach-called}
use coop_messenger.Tests.{home, alice, chat, some_db}

abbrev client : Client assoc_dexie
client = record { db = some_db; session = alice; effects = [] }

abbrev same_text : String → String
same_text s = s

-- Every request is answered without an error.
abbrev done : Request → Option AppError
done r = none

-- Everyone has access to every topic.
abbrev admitted : Request → Option ℕ
admitted r = some 200

abbrev dialog : Dialog
dialog = record {
  topic = "garden";
  display_name = "Garden";
  show_login_page = false;
  creating = false;
  error = "";
  show_join_request = false;
  join_request_sent = false;
  join_request_error = "";
  username = "";
  password = "";
}

enter-Entered_example :
    Entered assoc_dexie home
      (is_granted (
        admitted (
          auth_request same_text "https://coop" "garden"
            (checked_user assoc_dexie home same_text done admitted joining dialog client))))
      "https://coop/garden"
      "garden"
      "Garden"
      client
      (enter assoc_dexie home same_text done admitted joining dialog client)
enter-Entered_example =
    enter-Entered assoc_dexie home same_text done admitted joining dialog client
      "https://coop/garden"

-- A request to join was sent for another topic.
abbrev asked_before : Dialog
asked_before = record dialog {
  topic = "kitchen";
  show_join_request = true;
  join_request_sent = true;
}

abbrev no_topics : List String
no_topics = []

sent_for_all_example :
    (no_topics ≡ [])
    × ((k : Dialog) × Sent.Reach assoc_dexie home same_text done
          (chat ∷ [])
          asked_before
          client
          no_topics
          k
          client
        × (k.topic ≡ "garden")
        × (says_sent k ≡ true))
unfolding button_enabled valid_topic topic_url
sent_for_all_example =
    sent_for_all assoc_dexie home same_text done (chat ∷ []) asked_before asked_before client client
      no_topics "garden" refl Sent.here refl refl

-- Two texts were typed, and the first one was searched for.
abbrev searching : Search
searching =
    timer_fired home alice same_text 0 0
      (handle_query_change 1 "alice" (handle_query_change 0 "al" opened))

Reach-searched_example :
    (count (λ q. q === "alice") ("alice" ∷ "al" ∷ [])
      ≡ count (λ q. q === "alice") (texts searching.timers)
        + count (λ q. q === "alice") ("al" ∷ []))
    × (count (λ r. r.method === "GET") searching.requests
        ≡ count
            (λ q.
              not (ltb (text_length q) 2) && (search_users same_text home alice q).method === "GET")
            ("al" ∷ []))
unfolding handle_query_change timer_fired add_contact
Reach-searched_example =
    Reach-searched home alice same_text ("alice" ∷ "al" ∷ []) ("al" ∷ []) searching
      (λ q. q === "alice") (λ r. r.method === "GET") (λ username. refl)
      (fired 0 0 "al" (changed 1 "alice" (changed 0 "al" here)) refl)

-- An account with a chat, and without settings.
abbrev account : Account
account = record {
  notification = none;
  subscriptions =
      some ((record { base_url = "https://other"; topic = "garden"; display_name = none }) ∷ []);
  reservations = none;
}

handle_change-Reads_example :
    Reads assoc_dexie (sound "pop") (handle_change assoc_dexie home done (sound "pop") client).db
    × ((handle_change assoc_dexie home done (sound "pop") client).effects
        ≡ [] ++ request (update_settings home alice (payload_of (sound "pop"))) ∷ [])
    × Reads assoc_dexie
        (sound "pop")
        (sync assoc_dexie home alice
          (ok (changed_account assoc_dexie (sound "pop") account))
          some_db).db
handle_change-Reads_example =
    handle_change-Reads assoc_dexie home done (sound "pop") client account alice some_db refl refl
      refl (λ r. refl)

abbrev user_dialog : UserDialog
user_dialog = record {
  edited = none;
  base_url = "https://other";
  username = "ally";
  password = "secret";
}

handle_dialog_submit-added_example :
    (Users.get assoc_dexie home alice "https://other" some_db ≡ none)
    × (Users.get assoc_dexie home alice "https://other"
          (handle_dialog_submit assoc_dexie home user_dialog client).db
        ≡ (if "https://other" === "https://other"
            then some (typed_user user_dialog)
            else Users.get assoc_dexie home alice "https://other" some_db))
unfolding add_button_enabled valid_url Users.all Users.local_user
handle_dialog_submit-added_example =
    handle_dialog_submit-added assoc_dexie home user_dialog client "https://other" refl refl

abbrev refusing : Request → Option AppError
refusing r = some incorrect_password

abbrev spoken : AppError → String
spoken e = "error"

abbrev password_form : Form
password_form = change_password "old" "new"

abbrev page : Page
page = record { session = alice; closed = false; error = ""; effects = [] }

handle_submit-Told_example :
    Told password_form
      (some incorrect_password)
      page
      (handle_submit home 1000 spoken refusing password_form page)
    × (sent_requests (handle_submit home 1000 spoken refusing password_form page).effects
        ≡ request_of home 1000 password_form alice ∷ [])
handle_submit-Told_example =
    handle_submit-Told home 1000 spoken refusing password_form alice (λ e. refl)

-- A code was sent to a number, and the number is added.
abbrev verified : PhoneDialog
verified = Phone.handle_dialog_submit (
    Phone.answered spoken (verifying "+491" "sms") none
      (Phone.handle_dialog_submit (record (new_dialog alice) { phone_number = "+491" })))

Reach-called_example : all_called verified ≡ true
unfolding Phone.handle_dialog_submit Phone.answered Phone.submit_enabled valid_number
Reach-called_example = Reach-called spoken alice verified (
    Verified.next
      (Verified.next
        (Verified.next (Verified.next Verified.here (number_typed "+491" refl) refl)
          (submitted refl) tt)
        (settles (verifying "+491" "sms") none refl) tt)
      (submitted refl) tt)
