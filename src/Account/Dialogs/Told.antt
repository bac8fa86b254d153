-- ===== src/Account/Dialogs/Told.antt =====
-- What the user learns of a submission.
use coop_messenger.Prelude.{
  ℕ, ◌≡◌, refl, String, Bool, true, false, not, ◌&&◌, ◌||◌, Option, none, some, List, [], ◌∷◌, any,
  any-append, ◌===◌, arith, if◌then◌else◌,
}
use coop_messenger.Types.{Config, Session}
use coop_messenger.Errors.{AppError, unauthorized, topic_reserved, incorrect_password}
use coop_messenger.Users.{reset}
use coop_messenger.Account.{Request}
use coop_messenger.Account.Dialogs.{
  Effect, sent, redirect_to_login, redirect_to_app, database_deleted, Page, Form, change_password,
  delete_account, save_token, delete_token, add_reservation, edit_reservation, delete_reservation,
  show, expire, catch_password, catch_token, catch_add_reservation, catch_reservation,
  account_deleted, request_of, after_answer, handle_submit,
}

abbrev pub is_redirect : Effect → Bool
is_redirect redirect_to_login = true
is_redirect redirect_to_app = true
is_redirect e = false

abbrev pub is_deletion : Form → Bool
is_deletion (delete_account password) = true
is_deletion form = false

abbrev pub is_expired : Option AppError → Bool
is_expired (some unauthorized) = true
is_expired o = false

abbrev pub is_failed : Option AppError → Bool
is_failed none = false
is_failed (some e) = true

-- The session ends where it has expired, and with the account.
abbrev pub ends : Form → Option AppError → Bool
ends form none = is_deletion form
ends form (some e) = is_expired (some e)

-- An error text is shown exactly where the request failed for another reason than the end of the
-- session; the session ends exactly where the user is sent away; and the dialog stays open before the
-- user exactly where an error text is shown.
abbrev pub Told : Form → Option AppError → Page → Page → Type 0
Told form o p p' =
    (not (p'.error === "") ≡ (is_failed o && not (is_expired o)))
    × (p'.session ≡ (if ends form o then reset p.session else p.session))
    × (any is_redirect p'.effects ≡ (any is_redirect p.effects || ends form o))
    × (not (p'.closed || ends form o) ≡ (is_failed o && not (is_expired o)))

module _ (message : AppError → String) (spoken : (e : AppError) → message e === "" ≡ false) where
  expire-Told :
      (form : Form) (p : Page) (b : Bool)
      → (p.error === "") ≡ true
      → Told form (some unauthorized) p (record (expire p) { closed = b })
  unfolding expire
  expire-Told form p b fresh =
      ground (arith, fresh, any-append is_redirect p.effects (redirect_to_login ∷ []))

  show-Told :
      (form : Form) (e : AppError) (text : String) (p : Page)
      → text === "" ≡ false
      → is_expired (some e) ≡ false
      → p.closed ≡ false
      → Told form (some e) p (show text p)
  show-Told form e text p said other open_now = ground (arith, said, other, open_now)

  catch_password-Told :
      (form : Form) (e : AppError) (p : Page)
      → (p.error === "") ≡ true
      → p.closed ≡ false
      → Told form (some e) p (catch_password message e p)
  unfolding catch_password
  catch_password-Told form incorrect_password p fresh open_now =
      show-Told form incorrect_password "account_basics_password_dialog_current_password_incorrect"
        p refl refl open_now
  catch_password-Told form unauthorized p fresh open_now = expire-Told form p p.closed fresh
  catch_password-Told form e p fresh open_now =
      show-Told form e (message e) p (spoken e) refl open_now

  catch_token-Told :
      (form : Form) (e : AppError) (p : Page)
      → (p.error === "") ≡ true
      → p.closed ≡ false
      → Told form (some e) p (catch_token message e p)
  unfolding catch_token
  catch_token-Told form unauthorized p fresh open_now = expire-Told form p p.closed fresh
  catch_token-Told form e p fresh open_now = show-Told form e (message e) p (spoken e) refl open_now

  catch_add_reservation-Told :
      (form : Form) (e : AppError) (p : Page)
      → (p.error === "") ≡ true
      → p.closed ≡ false
      → Told form (some e) p (catch_add_reservation message e p)
  unfolding catch_add_reservation
  catch_add_reservation-Told form unauthorized p fresh open_now = expire-Told form p true fresh
  catch_add_reservation-Told form topic_reserved p fresh open_now =
      show-Told form topic_reserved "subscribe_dialog_error_topic_already_reserved" p refl refl
        open_now
  catch_add_reservation-Told form e p fresh open_now =
      show-Told form e (message e) p (spoken e) refl open_now

  catch_reservation-Told :
      (form : Form) (e : AppError) (p : Page)
      → (p.error === "") ≡ true
      → p.closed ≡ false
      → Told form (some e) p (catch_reservation message e p)
  unfolding catch_reservation
  catch_reservation-Told form unauthorized p fresh open_now = expire-Told form p true fresh
  catch_reservation-Told form e p fresh open_now =
      show-Told form e (message e) p (spoken e) refl open_now

  account_deleted-Told :
      (password : String) (p : Page)
      → (p.error === "") ≡ true
      → Told (delete_account password) none p (account_deleted p)
  unfolding account_deleted
  account_deleted-Told password p fresh =
      ground
        (arith, fresh, any-append is_redirect p.effects (database_deleted ∷ redirect_to_app ∷ []))

  after_answer-Told :
      (form : Form) (o : Option AppError) (p : Page)
      → (p.error === "") ≡ true
      → p.closed ≡ false
      → Told form o p (after_answer message form o p)
  unfolding after_answer
  after_answer-Told (delete_account password) none p fresh open_now =
      account_deleted-Told password p fresh
  after_answer-Told form none p fresh open_now = ground (arith, fresh)
  after_answer-Told (change_password a b) (some e) p fresh open_now =
      catch_password-Told (change_password a b) e p fresh open_now
  after_answer-Told (delete_account a) (some e) p fresh open_now =
      catch_password-Told (delete_account a) e p fresh open_now
  after_answer-Told (save_token t l x) (some e) p fresh open_now =
      catch_token-Told (save_token t l x) e p fresh open_now
  after_answer-Told (delete_token t) (some e) p fresh open_now =
      catch_token-Told (delete_token t) e p fresh open_now
  after_answer-Told (add_reservation t x) (some e) p fresh open_now =
      catch_add_reservation-Told (add_reservation t x) e p fresh open_now
  after_answer-Told (edit_reservation t x) (some e) p fresh open_now =
      catch_reservation-Told (edit_reservation t x) e p fresh open_now
  after_answer-Told (delete_reservation t b) (some e) p fresh open_now =
      catch_reservation-Told (delete_reservation t b) e p fresh open_now

abbrev pub sent_requests : List Effect → List Request
sent_requests [] = []
sent_requests (sent r ∷ es) = r ∷ sent_requests es
sent_requests (e ∷ es) = sent_requests es

after_answer_requests :
    (message : AppError → String) (form : Form) (o : Option AppError) (session : Session)
    (r : Request)
    → sent_requests
        (after_answer message form o
          (record { session = session; closed = false; error = ""; effects = sent r ∷ [] })).effects
      ≡ r ∷ []
unfolding after_answer catch_password catch_token catch_add_reservation catch_reservation expire
    account_deleted
after_answer_requests message (delete_account a) none session r = refl
after_answer_requests message form none session r = refl
after_answer_requests message (change_password a b) (some unauthorized) session r = refl
after_answer_requests message (delete_account a) (some unauthorized) session r = refl
after_answer_requests message (save_token t l x) (some unauthorized) session r = refl
after_answer_requests message (delete_token t) (some unauthorized) session r = refl
after_answer_requests message (add_reservation t x) (some unauthorized) session r = refl
after_answer_requests message (edit_reservation t x) (some unauthorized) session r = refl
after_answer_requests message (delete_reservation t b) (some unauthorized) session r = refl
after_answer_requests message form (some e) session r = refl

module _ (config : Config) (now : ℕ) (message : AppError → String)
    (answer : Request → Option AppError) where
  -- If no error has an empty message, then after any dialog of the account or of reservations that was
  -- just opened is submitted, its request is sent and no other one; a text is shown exactly where the
  -- request fails for another reason than that the session has expired, and exactly then the dialog
  -- stays before the user; and the session ends, and the user is sent away, exactly where it has
  -- expired or the account was deleted.
  pub handle_submit-Told :
      (form : Form) (session : Session)
      → ((e : AppError) → message e === "" ≡ false)
      → let p : Page = record { session = session; closed = false; error = ""; effects = [] } in
        let r = request_of config now form session in
        Told form (answer r) p (handle_submit config now message answer form p)
        × (sent_requests (handle_submit config now message answer form p).effects ≡ r ∷ [])
  unfolding handle_submit
  handle_submit-Told form session spoken =
      let r = request_of config now form session in
      let p : Page = record {
        session = session;
        closed = false;
        error = "";
        effects = sent r ∷ [];
      } in
      (
        after_answer-Told message spoken form (answer r) p refl refl,
        after_answer_requests message form (answer r) session r,
      )
