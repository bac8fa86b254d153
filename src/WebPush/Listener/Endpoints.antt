-- ===== src/WebPush/Listener/Endpoints.antt =====
-- Which subscription the server is told of, and how often.
use coop_messenger.Prelude.{
  ◌≡◌, refl, ap, ap₂, sym, Option-cases, ◌∙◌, String, Bool, true, false, ◌&&◌, Option, none, some,
  List, [], ◌∷◌, ◌++◌, all, ◌===◌, eq_refl, eq_iff, arith, some_eq, Bool-cases, inl, inr,
  if◌then◌else◌,
}
use coop_messenger.Types.{Config, Session}
use coop_messenger.Db.{Dexie}
use coop_messenger.Account.{Request, Body, str, num, strs, flag, object}
use coop_messenger.WebPush.{
  PushSubscription, update_web_push_subscriptions, update_web_push, delete_web_push,
}
use coop_messenger.WebPush.Listener.{
  returned, web_push_subscription, Listener, has_any, same_strings, same_flag, is_update, Run, send,
  after_subscription, refresh_topics, run_effect, run_effects,
}

-- The endpoint in a body.
abbrev pub endpoint_in : Body → Option String
endpoint_in [] = none
endpoint_in ((key, str value) ∷ rest) = if key === "endpoint" then some value else endpoint_in rest
endpoint_in ((key, num n) ∷ rest) = endpoint_in rest
endpoint_in ((key, strs ss) ∷ rest) = endpoint_in rest
endpoint_in ((key, flag b) ∷ rest) = endpoint_in rest
endpoint_in ((key, object property value) ∷ rest) = endpoint_in rest

-- The request is about the subscription that the browser has.
abbrev pub names : Option PushSubscription → Request → Bool
names none r = false
names (some p) r = elim r.body [ none ↦ false | some body ↦ some_eq (endpoint_in body) p.endpoint ]

abbrev pub all_named : Listener → Bool
all_named l = all (names l.existing) l.requests

all-append_one {ℓ} :
    {A : Type ℓ} (p : A → Bool) (xs : List A) (x : A)
    → all p xs ≡ true
    → p x ≡ true
    → all p (xs ++ x ∷ []) ≡ true
all-append_one p [] x h k = ground (arith, k)
all-append_one p (y ∷ xs) x h k = ground (arith, h, all-append_one p xs x (ground (arith, h)) k)

-- Nothing can have been sent before there is a subscription.
all_named_later :
    (p : PushSubscription) (rs : List Request)
    → all (names none) rs ≡ true
    → all (names (some p)) rs ≡ true
all_named_later p [] h = refl
all_named_later p (r ∷ rs) h = ground (arith, h)

same_strings_refl : (ts : List String) → same_strings ts ts ≡ true
same_strings_refl [] = refl
same_strings_refl (t ∷ ts) = ground (arith, eq_refl t, same_strings_refl ts)

same_flag_refl : (b : Bool) → same_flag b b ≡ true
same_flag_refl true = refl
same_flag_refl false = refl

same_strings-eq : (ss ts : List String) → same_strings ss ts ≡ true → ss ≡ ts
same_strings-eq [] [] h = refl
same_strings-eq [] (t ∷ ts) h = ground (arith, h)
same_strings-eq (s ∷ ss) [] h = ground (arith, h)
same_strings-eq (s ∷ ss) (t ∷ ts) h =
    ap₂ ◌∷◌ ((eq_iff s t).0 (ground (arith, h))) (same_strings-eq ss ts (ground (arith, h)))

same_flag-eq : (a b : Bool) → same_flag a b ≡ true → a ≡ b
same_flag-eq true b h = sym h
same_flag-eq false true h = h
same_flag-eq false false h = refl

is_update-eq :
    (prev : Option (List String × Bool)) (topics : List String) (push_possible : Bool)
    → is_update prev topics push_possible ≡ true
    → prev ≡ some (topics, push_possible)
is_update-eq none topics push_possible h = ground (arith, h)
is_update-eq (some (ts, b)) topics push_possible h = ap some (
    ap₂ (λ x y. (x, y)) (same_strings-eq ts topics (ground (arith, h)))
      (same_flag-eq b push_possible (ground (arith, h))))

all_named_if :
    (c : Bool) (a b : Listener)
    → all_named a ≡ true
    → all_named b ≡ true
    → all_named (if c then a else b) ≡ true
all_named_if true a b h k = h
all_named_if false a b h k = k

-- The topics are not there yet, or they and the permission are the given ones.
abbrev pub asks : List String → Bool → Option (List String) → Bool → Bool
asks topics push_possible none b = true
asks topics push_possible (some ts) b = same_strings topics ts && same_flag push_possible b

module _ (d : Dexie) (config : Config) (encode_base64 : String → String) (session : Session) where
  send-all_named :
      (run : Run d config encode_base64 session) (topics : List String) (p : PushSubscription)
      (l : Listener)
      → all (names (some p)) l.requests ≡ true
      → all_named (
          after_subscription d config encode_base64 session run topics
            (returned (some p), some p)
            l)
        ≡ true
  unfolding after_subscription send update_web_push_subscriptions update_web_push delete_web_push
  send-all_named run [] p l h =
      let sent : all (names (some p))
            (l.requests ++ delete_web_push d config encode_base64 session p run.db ∷ [])
          ≡ true =
        all-append_one (names (some p)) l.requests
          (delete_web_push d config encode_base64 session p run.db) h (eq_refl p.endpoint) in
      all_named_if (run.succeeds (delete_web_push d config encode_base64 session p run.db)) _ _ sent
        sent
  send-all_named run (t ∷ ts) p l h =
      let sent : all (names (some p))
            (l.requests ++ update_web_push d config encode_base64 session p (t ∷ ts) run.db ∷ [])
          ≡ true =
        all-append_one (names (some p)) l.requests
          (update_web_push d config encode_base64 session p (t ∷ ts) run.db) h
          (eq_refl p.endpoint) in
      all_named_if (run.succeeds (update_web_push d config encode_base64 session p (t ∷ ts) run.db))
        _ _ sent sent

  after_subscription-all_named :
      (run : Run d config encode_base64 session) (topics : List String) (l : Listener)
      (registered : Bool) (answer : Option PushSubscription) (has : Bool)
      (existing : Option PushSubscription)
      → all (names existing) l.requests ≡ true
      → all_named (
          after_subscription d config encode_base64 session run topics
            (web_push_subscription registered answer has existing)
            l)
        ≡ true
  unfolding after_subscription send update_web_push_subscriptions web_push_subscription
  after_subscription-all_named run topics l false answer has existing h = h
  after_subscription-all_named run topics l true answer has (some p) h =
      send-all_named run topics p l h
  after_subscription-all_named run [] l true answer false none h = h
  after_subscription-all_named run (t ∷ ts) l true answer false none h = h
  after_subscription-all_named run topics l true none true none h = h
  after_subscription-all_named run topics l true (some p) true none h =
      send-all_named run topics p l (all_named_later p l.requests h)

  run_effect-all_named :
      (run : Run d config encode_base64 session) (l : Listener)
      → all_named l ≡ true
      → all_named (run_effect d config encode_base64 session run l) ≡ true
  unfolding run_effect refresh_topics
  run_effect-all_named run l h = elim (Option-cases run.topics) [
    | inl missing ↦ rw missing h
    | inr (topics, there) ↦ rw there (
        all_named_if (is_update l.prev_update topics run.push_possible) _ _ h (
          after_subscription-all_named run topics l run.registered run.answer (has_any topics)
            l.existing h))
  ]

  -- The browser still has the subscription that it had.
  abbrev pub keeps : Run d config encode_base64 session → Bool
  keeps run = elim run.replaced [ none ↦ true | some existing ↦ false ]

  run_effects-kept :
      (run : Run d config encode_base64 session) (runs : List (Run d config encode_base64 session))
      (l : Listener)
      → keeps run ≡ true
      → run_effects d config encode_base64 session l (run ∷ runs)
        ≡ run_effects d config encode_base64 session
            (run_effect d config encode_base64 session run l)
            runs
  run_effects-kept run runs l h = elim (Option-cases run.replaced) [
    | inl same ↦ rw same refl
    | inr (existing, other) ↦ absurd (ground (arith, h, other))
  ]

  -- If every request so far was about the subscription that the browser has, as where none was sent, then
  -- so it is after any runs of the effect, as long as the browser itself neither drops nor replaces the
  -- subscription in between, whatever the topics are and whichever runs fail: what is registered at the
  -- server is what is taken back later.
  pub run_effects-all_named :
      (runs : List (Run d config encode_base64 session)) (l : Listener)
      → all keeps runs ≡ true
      → all_named l ≡ true
      → all_named (run_effects d config encode_base64 session l runs) ≡ true
  run_effects-all_named [] l k h = h
  run_effects-all_named (run ∷ runs) l k h = rw (run_effects-kept run runs l (ground (arith, k))) (
      run_effects-all_named runs (run_effect d config encode_base64 session run l)
        (ground (arith, k)) (run_effect-all_named run l h))

  abbrev pub is_for : List String → Bool → Run d config encode_base64 session → Bool
  is_for topics push_possible run =
      keeps run && asks topics push_possible run.topics run.push_possible

  run_effect-same :
      (topics : List String) (push_possible : Bool) (run : Run d config encode_base64 session)
      (l : Listener)
      → l.prev_update ≡ some (topics, push_possible)
      → asks topics push_possible run.topics run.push_possible ≡ true
      → run_effect d config encode_base64 session run l ≡ l
  unfolding run_effect refresh_topics
  run_effect-same topics push_possible run l prev h = elim (Option-cases run.topics) [
    | inl missing ↦ rw missing refl
    | inr (ts, there) ↦
        let same : same_strings topics ts && same_flag push_possible run.push_possible ≡ true =
          sym (ap (λ o. asks topics push_possible o run.push_possible) there) ∙ h in
        rw (there, prev, same) refl
  ]

  run_effects-same :
      (topics : List String) (push_possible : Bool)
      (runs : List (Run d config encode_base64 session)) (l : Listener)
      → l.prev_update ≡ some (topics, push_possible)
      → all (is_for topics push_possible) runs ≡ true
      → run_effects d config encode_base64 session l runs ≡ l
  run_effects-same topics push_possible [] l prev h = refl
  run_effects-same topics push_possible (run ∷ runs) l prev h =
      rw
        (
          run_effects-kept run runs l (ground (arith, h)),
          run_effect-same topics push_possible run l prev (ground (arith, h)),
        )
        (run_effects-same topics push_possible runs l prev (ground (arith, h)))

  after_subscription-settles :
      (run : Run d config encode_base64 session) (topics : List String) (l : Listener)
      (p : PushSubscription)
      → ((r : Request) → run.succeeds r ≡ true)
      → (existing : Option PushSubscription)
      → (after_subscription d config encode_base64 session run topics
          (web_push_subscription true (some p) (has_any topics) existing)
          l).prev_update
        ≡ some (topics, run.push_possible)
  unfolding after_subscription send update_web_push_subscriptions web_push_subscription
  after_subscription-settles run [] l p ok (some q) =
      rw (ok (delete_web_push d config encode_base64 session q run.db)) refl
  after_subscription-settles run [] l p ok none = refl
  after_subscription-settles run (t ∷ ts) l p ok (some q) =
      rw (ok (update_web_push d config encode_base64 session q (t ∷ ts) run.db)) refl
  after_subscription-settles run (t ∷ ts) l p ok none =
      rw (ok (update_web_push d config encode_base64 session p (t ∷ ts) run.db)) refl

  -- Once a run finds a service worker, the browser gives it a subscription, and the server takes the
  -- request, further runs for the same topics and permission change nothing and send nothing, as long as
  -- the browser keeps the subscription.
  run_effect_settles :
      (run : Run d config encode_base64 session) (topics : List String) (p : PushSubscription)
      (runs : List (Run d config encode_base64 session)) (l : Listener)
      → run.topics ≡ some topics
      → run.registered ≡ true
      → run.answer ≡ some p
      → ((r : Request) → run.succeeds r ≡ true)
      → all (is_for topics run.push_possible) runs ≡ true
      → run_effects d config encode_base64 session
          (run_effect d config encode_base64 session run l)
          runs
        ≡ run_effect d config encode_base64 session run l
  unfolding run_effect refresh_topics
  run_effect_settles run topics p runs l there registered answer ok same =
      run_effects-same topics run.push_possible runs _ settled same
    where
      settled :
          (run_effect d config encode_base64 session run l).prev_update
          ≡ some (topics, run.push_possible)
      settled = elim (Bool-cases (is_update l.prev_update topics run.push_possible)) [
        | inl done ↦ rw (there, done) (is_update-eq l.prev_update topics run.push_possible done)
        | inr new ↦
            rw (there, new, registered, answer)
              (after_subscription-settles run topics l p ok l.existing)
      ]
