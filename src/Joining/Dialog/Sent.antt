-- ===== src/Joining/Dialog/Sent.antt =====
-- The request to join, and what the page says about it.
use coop_messenger.Prelude.{
  ℕ, ◌≡◌, refl, ◌∙◌, String, Bool, true, false, not, Option, none, some, List, [], ◌∷◌, ◌&&◌, arith,
  Option-cases, eq_refl, inl, inr,
}
use mathlib.Core.Path.{subst}
use coop_messenger.Types.{Config, User, Subscription}
use coop_messenger.Db.{Dexie}
use coop_messenger.Errors.{AppError, Result, ok, raise}
use coop_messenger.Account.{Request}
use coop_messenger.Users as Users
use coop_messenger.Users.{exists}
use coop_messenger.Joining.{Client}
use coop_messenger.Api.{topic_auth}
use coop_messenger.Joining.Dialog.{
  Dialog, type_topic, JoinAnswer, handle_send_join_request, can_send, says_sent, button_enabled,
  handle_join, after_join, topic_auth_of,
}

module _ (d : Dexie) (config : Config) (encode_base64 : String → String)
    (answer : Request → Option AppError) (subscriptions : List Subscription) where
  -- The button to join.
  abbrev pub join_enabled : Dialog → Bool
  join_enabled h = not h.show_join_request && button_enabled config subscriptions h.topic

  -- What the user does on the page for joining, with the answers of the server. The button that
  -- sends a request is there only while `can_send`, and the one to join while `join_enabled`. The
  -- topics that were asked for are the index, the latest first, whatever the server answered.
  pub data Reach (g : Dialog) (c : Client d) : List String → Dialog → Client d → Type 0 where
    here : Reach g c [] g c
    typed :
        {ts : List String} {h : Dialog} {e : Client d} (topic : String)
        → Reach g c ts h e
        → Reach g c ts (type_topic topic h) e
    joined :
        {ts : List String} {h : Dialog} {e : Client d} (status : Request → Option ℕ)
        → Reach g c ts h e
        → join_enabled h ≡ true
        → Reach g c ts
            (handle_join d config encode_base64 answer status h e).dialog
            (handle_join d config encode_base64 answer status h e).client
    sent :
        {ts : List String} {h : Dialog} {e : Client d} (response : JoinAnswer)
        → Reach g c ts h e
        → can_send h ≡ true
        → Reach g c
            (h.topic ∷ ts)
            (handle_send_join_request d config response h e).0
            (handle_send_join_request d config response h e).1

  -- The flag, once set, stays, whatever `handleJoin` comes to.
  handle_join_sent :
      (status : Request → Option ℕ) (h : Dialog) (e : Client d)
      → (handle_join d config encode_base64 answer status h e).dialog.join_request_sent
        ≡ h.join_request_sent
  unfolding handle_join
  handle_join_sent status h e = by_cases (Users.get d config e.session config.base_url e.db) _
    where
      by_cases :
          (user : Option User) (r : Result Bool)
          → (after_join d config encode_base64 answer status user r
              (record h { error = ""; show_join_request = false })
              e).dialog.join_request_sent
            ≡ h.join_request_sent
      by_cases user (raise x) = refl
      by_cases user (ok true) = refl
      by_cases none (ok false) = refl
      by_cases (some u) (ok false) = ground arith

  flag_stays :
      {g : Dialog} {c : Client d} {ts : List String} {h : Dialog} {e : Client d}
      → Reach g c ts h e
      → g.join_request_sent ≡ true
      → (ts ≡ []) × (h.join_request_sent ≡ true)
  unfolding type_topic
  flag_stays here p = (refl, p)
  flag_stays (typed topic r) p = flag_stays r p
  flag_stays (joined {h = h} {e = e} status r on) p =
      ((flag_stays r p).0, handle_join_sent status h e ∙ (flag_stays r p).1)
  flag_stays (sent {h = h} response r can) p = absurd (ground (arith, can, (flag_stays r p).1))

  home_user :
      (c : Client d)
      → exists c.session ≡ true
      → (u : User) × (Users.get d config c.session config.base_url c.db ≡ some u)
  unfolding Users.get Users.local_user
  home_user c signed_in = elim (Option-cases c.session.username) [
    | inl none_there ↦ absurd (ground (arith, none_there, signed_in))
    | inr (name, there) ↦ (
      record {
        base_url = config.base_url;
        username = name;
        password = none;
        token = c.session.token;
      },
      ground (arith, there, signed_in, eq_refl config.base_url),
    )
  ]

  abbrev denying : Request → Option ℕ
  denying r = some 403

  refused_again :
      (topic : String) (g : Dialog) (c : Client d)
      → exists c.session ≡ true
      → let after = handle_join d config encode_base64 answer denying (type_topic topic g) c in
        (after.dialog.topic ≡ topic) × (after.dialog.show_join_request ≡ true) × (after.client ≡ c)
  unfolding handle_join after_join type_topic topic_auth_of topic_auth
  refused_again topic g c signed_in = rw ((home_user c signed_in).1, signed_in) (refl, refl, refl)

  -- Once a request to join was sent from the page, no other one is sent from it, whatever is typed and
  -- whatever the server answers; yet for every valid topic without a subscription that is typed then, and
  -- to which the home server denies a signed-in user the access, the page says that the request was
  -- sent.
  pub sent_for_all :
      (g h : Dialog) (c e : Client d) (ts : List String) (topic : String)
      → g.join_request_sent ≡ true
      → Reach g c ts h e
      → exists e.session ≡ true
      → button_enabled config subscriptions topic ≡ true
      → (ts ≡ []) × ((k : Dialog) × Reach g c ts k e × (k.topic ≡ topic) × (says_sent k ≡ true))
  unfolding type_topic
  sent_for_all g h c e ts topic p r signed_in fits =
      let typed_in = type_topic topic h in
      let after = handle_join d config encode_base64 answer denying typed_in e in
      let again = refused_again topic h e signed_in in
      (
        (flag_stays r p).0,
        (
          after.dialog,
          subst (λ (e' : Client d). Reach g c ts after.dialog e') again.2
              (joined denying (typed topic r) fits),
          again.0,
          both after.dialog.show_join_request after.dialog.join_request_sent again.1
              (handle_join_sent denying typed_in e ∙ (flag_stays r p).1),
        ),
      )
    where
      both : (a b : Bool) → a ≡ true → b ≡ true → a && b ≡ true
      both a b x y = ground (arith, x, y)
