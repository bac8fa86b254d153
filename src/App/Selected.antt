-- ===== src/App/Selected.antt =====
-- Which chat is open at the path of a subscription.
use Prim.Native.Char.{Char, code}
use text.Mathlib.TextLemmas.{nil-append, cons-append}
use coop_messenger.Prelude.{
  ℕ, ◌+◌, ◌≡◌, refl, ap, ◌∙◌, any, String, Bool, true, false, not, ◌&&◌, ◌||◌, Option, none, some,
  List, [], ◌∷◌, filter, includes, ◌===◌, eq_iff, arith, leb, eqb, if◌then◌else◌, Bool-cases, inl,
  inr, find,
}
use coop_messenger.Types.{Config, Subscription}
use coop_messenger.Utils.Urls.{◌&◌, short_url}
use coop_messenger.App.{Params, for_subscription, expand_url, is_at, first_of, selected}

-- The first parts of the other paths of the application.
abbrev pub other_routes : List String
other_routes = "login" ∷ "signup" ∷ "account" ∷ "settings" ∷ "admin" ∷ "docs" ∷ "invite" ∷ []

-- A character of topics, or of a host with a port.
abbrev pub is_plain_char : Char → Bool
is_plain_char c =
    (leb b'a' (code c) && leb (code c) b'z')
    || ((leb b'A' (code c) && leb (code c) b'Z')
        || ((leb b'-' (code c) && leb (code c) b'.')
            || ((leb b'0' (code c) && leb (code c) b':') || eqb (code c) b'_')))

abbrev pub all_plain : String → Bool
all_plain String.[] = true
all_plain (String.◌∷◌ c s) = is_plain_char c && all_plain s

abbrev pub lower_code : Char → ℕ
lower_code c = if leb b'A' (code c) && leb (code c) b'Z' then code c + 32 else code c

abbrev pub same_ignoring_case : String → String → Bool
same_ignoring_case String.[] String.[] = true
same_ignoring_case String.[] (String.◌∷◌ x t) = false
same_ignoring_case (String.◌∷◌ c s) String.[] = false
same_ignoring_case (String.◌∷◌ c s) (String.◌∷◌ x t) =
    eqb (lower_code c) (lower_code x) && same_ignoring_case s t

-- A part of a path that no other route begins with, in whatever case, and that browsers keep.
abbrev pub is_segment : String → Bool
is_segment s =
    not (s === "")
    && (all_plain s
        && (not (any (same_ignoring_case s) other_routes) && (not (s === ".") && not (s === ".."))))

-- What react-router documents of the two routes of a chat, where the path is not that of
-- `config.app_root`. It matches without regard to case.
pub record IsRouter (app_root : String) (use_params : String → Params) : Type 0 where
  pub home :
      (topic : String)
      → is_segment topic ≡ true
      → same_ignoring_case ("/" & topic) app_root ≡ false
      → use_params ("/" & topic) ≡ record { base_url = none; topic = some topic }
  pub external :
      (url topic : String)
      → is_segment url ≡ true
      → is_segment topic ≡ true
      → same_ignoring_case ("/" & url & "/" & topic) app_root ≡ false
      → use_params ("/" & url & "/" & topic) ≡ record { base_url = some url; topic = some topic }

-- The chats that are shown at the path of `s`.
abbrev pub shown_at : Config → Subscription → Subscription → Bool
shown_at config s r =
    not r.internal
    && (s.topic === r.topic
        && (config.base_url === r.base_url
            || (not (s.base_url === config.base_url)
                && includes r.base_url (expand_url (short_url s.base_url)))))

first_of-filter :
    (p q : Subscription → Bool) (ss : List Subscription)
    → first_of (filter p (filter q ss)) ≡ find (λ s. q s && p s) ss
first_of-filter p q [] = refl
first_of-filter p q (s ∷ ss) = ground (arith, first_of-filter p q ss)

find_congr :
    (p q : Subscription → Bool)
    → ((s : Subscription) → p s ≡ q s)
    → (ss : List Subscription) → find p ss ≡ find q ss
find_congr p q h [] = refl
find_congr p q h (s ∷ ss) = ground (arith, h s, find_congr p q h ss)

not_and : (a b : Bool) → not a && b ≡ true → a ≡ false
not_and true b h = ground (arith, h)
not_and false b h = refl

external_test :
    (internal at topic home empty same : Bool)
    → empty ≡ false
    → same ≡ false
    → (not internal && (((not empty && at) && topic) || (home && topic)))
      ≡ (not internal && (topic && (home || (not same && at))))
external_test internal at topic home empty same e f = ground (arith, e, f)

module _ (app_root : String) (use_params : String → Params)
    (router : IsRouter app_root use_params) where
  pub selected-for_subscription :
      (config : Config) (s : Subscription) (subscriptions : List Subscription)
      → is_segment s.topic ≡ true
      → is_segment (short_url s.base_url) ≡ true
      → same_ignoring_case (for_subscription config s) app_root ≡ false
      → selected config (use_params (for_subscription config s)) subscriptions
        ≡ find (shown_at config s) subscriptions
  unfolding selected for_subscription
  selected-for_subscription config s ss h k path =
      elim (Bool-cases (s.base_url === config.base_url)) [
        | inl same ↦
            rw (same, router.home s.topic h (rw same at path))
              (first_of-filter (is_at config home_params) (λ r. not r.internal) ss
                ∙ find_congr (λ r. not r.internal && is_at config home_params r) (shown_at config s)
                    (λ r. ground (arith, same)) ss)
        | inr differs ↦
            rw (differs, router.external (short_url s.base_url) s.topic k h (rw differs at path))
              (first_of-filter (is_at config external_params) (λ r. not r.internal) ss
                ∙ find_congr (λ r. not r.internal && is_at config external_params r)
                    (shown_at config s)
                    (λ r.
                      external_test r.internal
                        (includes r.base_url (expand_url (short_url s.base_url)))
                        (s.topic === r.topic) (config.base_url === r.base_url)
                        (short_url s.base_url === "") (s.base_url === config.base_url)
                        (not_and (short_url s.base_url === "")
                          (all_plain (short_url s.base_url)
                            && (not (any (same_ignoring_case (short_url s.base_url)) other_routes)
                                && (not (short_url s.base_url === ".")
                                    && not (short_url s.base_url === ".."))))
                          k)
                        differs)
                    ss)
      ]
    where
      home_params : Params
      home_params = record { base_url = none; topic = some s.topic }

      external_params : Params
      external_params = record { base_url = some (short_url s.base_url); topic = some s.topic }

  -- At the path of a subscription of another server, a chat of the home server with the same topic is
  -- open instead, if it is not internal and comes first.
  selected_home :
      (config : Config) (s h : Subscription) (subscriptions : List Subscription)
      → is_segment s.topic ≡ true
      → is_segment (short_url s.base_url) ≡ true
      → h.base_url ≡ config.base_url
      → h.topic ≡ s.topic
      → h.internal ≡ false
      → same_ignoring_case (for_subscription config s) app_root ≡ false
      → selected config (use_params (for_subscription config s)) (h ∷ subscriptions) ≡ some h
  selected_home config s h ss a b at topic shown path =
      selected-for_subscription config s (h ∷ ss) a b path
      ∙ ground (arith, at, topic, shown, eq_iff config.base_url h.base_url, eq_iff s.topic h.topic)

-- An implementation of the two routes, for the tests.
split_slash : String → String × Option String
split_slash String.[] = ("", none)
split_slash (String.◌∷◌ c s) =
    let parts = split_slash s in
    if eqb (code c) b'/' then ("", some s) else (String.◌∷◌ c parts.0, parts.1)

params_of : String × Option String → Params
params_of (url, none) = record { base_url = none; topic = some url }
params_of (url, some topic) = record { base_url = some url; topic = some topic }

unfoldable pub route_params : String → Params
unfolding split_slash params_of
route_params String.[] = record { base_url = none; topic = none }
route_params (String.◌∷◌ c s) = params_of (split_slash s)

slash_append : (s : String) → "/" & s ≡ String.◌∷◌ "/" s
slash_append s = cons-append "/" "" s ∙ ap (String.◌∷◌ "/") (nil-append s)

split_slash_plain : (s : String) → all_plain s ≡ true → split_slash s ≡ (s, none)
unfolding split_slash
split_slash_plain String.[] h = refl
split_slash_plain (String.◌∷◌ c s) h = rw (split_slash_plain s (ground arith)) (ground arith)

split_slash-append : (s t : String) → all_plain s ≡ true → split_slash (s & "/" & t) ≡ (s, some t)
unfolding split_slash
split_slash-append String.[] t h = rw nil-append (ap split_slash (slash_append t))
split_slash-append (String.◌∷◌ c s) t h =
    rw (cons-append, split_slash-append s t (ground arith)) (ground arith)

pub route_params-IsRouter : (app_root : String) → IsRouter app_root route_params
unfolding route_params params_of
route_params-IsRouter app_root = record {
  home = λ topic h p.
      ap route_params (slash_append topic)
      ∙ ap params_of (split_slash_plain topic (ground (arith, h)));
  external = λ url topic h k p.
      ap route_params (slash_append (url & "/" & topic))
      ∙ ap params_of (split_slash-append url topic (ground (arith, h)));
}
