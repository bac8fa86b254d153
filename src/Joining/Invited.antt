-- ===== src/Joining/Invited.antt =====
-- What the page of an invite does with the topics that the user has joined.
use coop_messenger.Prelude.{
  ℕ, ◌+◌, ◌≤◌, ◌≡◌, refl, ap, ◌∙◌, String, Bool, true, false, Option, none, some, List, [], ◌∷◌,
  map, count, count-append, truthy, or_else, if◌then◌else◌, arith, Bool-cases, inl, inr,
}
use coop_messenger.Types.{Config, Session}
use coop_messenger.Db.{Dexie}
use coop_messenger.Errors.{AppError, unauthorized}
use coop_messenger.Utils.Urls.{topic_url}
use coop_messenger.Users.{exists, reset}
use coop_messenger.Subscriptions.{Opts, get, add, new_subscription}
use coop_messenger.Subscriptions.Sync.{Added, Added-nil, Added-cons, get-add}
use coop_messenger.Account.{Request, str}
use coop_messenger.Account.Requests.{add_subscription, update_subscription}
use coop_messenger.Joining.{
  Effect, redirect_to_login, go_home_later, poll, request, Client, settle, no_opts, perform,
  after_failure, name_in_account, add_to_account, subscribe_topic, join_topics, joined, Invite,
  handle_join,
}

abbrev pub is_redirect : Effect → Bool
is_redirect redirect_to_login = true
is_redirect e = false

open_le : (session : Session) → (if exists session then 1 else 0) ≤ 1
open_le session = ground arith

module _ (d : Dexie) where
  -- How often the user was sent to the login, and once more if a session is still open.
  abbrev redirects : Client d → ℕ
  redirects c = count is_redirect c.effects + (if exists c.session then 1 else 0)

  -- The database stays, and the user is sent to the login only where the session ends.
  abbrev Told : Client d → Client d → Type 0
  Told c c' = (c'.db ≡ c.db) × (redirects c' ≤ redirects c)

  after_failure-Told :
      (e : AppError) (c : Client d) → exists c.session ≡ true → Told c (after_failure d e c)
  unfolding reset
  after_failure-Told unauthorized c h =
      (refl, rw (count-append is_redirect c.effects (redirect_to_login ∷ []), h) (omega arith))
  after_failure-Told e c h = (refl, omega arith)

  settle-Told :
      (o : Option AppError) (c : Client d) → exists c.session ≡ true → Told c (settle d o c)
  settle-Told none c h = (refl, omega arith)
  settle-Told (some e) c h = after_failure-Told e c h

  perform-Told : (e : Effect) (c : Client d) → is_redirect e ≡ false → Told c (perform d e c)
  perform-Told e c h = (refl, rw (count-append is_redirect c.effects (e ∷ []), h) (omega arith))

  Told-trans : (a b c : Client d) → Told a b → Told b c → Told a c
  Told-trans a b c p q = (q.0 ∙ p.0, omega (arith, p.1, q.1))

  if-Told :
      (b : Bool) (c x y : Client d)
      → (b ≡ true → Told c x)
      → (b ≡ false → Told c y)
      → Told c (if b then x else y)
  if-Told true c x y f g = f refl
  if-Told false c x y f g = g refl

module _ (d : Dexie) (config : Config) (answer : Request → Option AppError) where
  name_in_account-Told :
      (base_url topic : String) (name : Option String) (o : Option AppError) (c : Client d)
      → exists c.session ≡ true
      → Told d c (name_in_account d config answer base_url topic name o c)
  name_in_account-Told base_url topic name (some e) c h = after_failure-Told d e c h
  name_in_account-Told base_url topic name none c h =
      let naming =
        update_subscription config c.session base_url topic
          (("display_name", str (or_else name "")) ∷ []) in
      let named = perform d (request naming) c in
      elim (Bool-cases (truthy name)) [
        | inl t ↦ rw t (
            Told-trans d c named (settle d (answer naming) named)
              (perform-Told d (request naming) c refl) (settle-Told d (answer naming) named h))
        | inr f ↦ rw f (refl, omega arith)
      ]

  subscribe_topic-Told :
      (base_url topic : String) (opts : Opts) (c : Client d)
      → Told d
          (record c { db = (add d base_url topic opts c.db).0 })
          (subscribe_topic d config answer base_url topic opts c).0
  unfolding subscribe_topic add_to_account
  subscribe_topic-Told base_url topic opts c =
      let local : Client d = record c { db = (add d base_url topic opts c.db).0 } in
      let adding = add_subscription config c.session base_url topic in
      let asked = perform d (request adding) local in
      if-Told d (exists c.session) local
        (add_to_account d config answer base_url topic opts.display_name local) local
        (λ signed_in.
          Told-trans d local asked
            (name_in_account d config answer base_url topic opts.display_name (answer adding) asked)
            (perform-Told d (request adding) local refl)
            (name_in_account-Told base_url topic opts.display_name (answer adding) asked signed_in))
        (λ signed_out. (refl, omega arith))

  pub get-subscribe_topic :
      (base_url topic : String) (opts : Opts) (c : Client d) (id : String)
      → get d id (subscribe_topic d config answer base_url topic opts c).0.db
        ≡ get d id (add d base_url topic opts c.db).0
  get-subscribe_topic base_url topic opts c id =
      ap (get d id) (subscribe_topic-Told base_url topic opts c).0

  abbrev joined_ids : List String → List String
  joined_ids topics = map (topic_url config.base_url) topics

  join_topics-Added :
      (topics : List String) (c : Client d) (id : String)
      → Added
          (joined_ids topics)
          id
          (get d id c.db)
          (get d id (join_topics d config answer topics c).db)
  unfolding join_topics
  join_topics-Added [] c id = Added-nil id (get d id c.db)
  join_topics-Added (topic ∷ topics) c id =
      let result = subscribe_topic d config answer config.base_url topic no_opts c in
      let local : Client d = perform d (poll result.1) result.0 in
      Added-cons (joined_ids topics) (topic_url config.base_url topic) id
        (new_subscription config.base_url topic no_opts) (get d id c.db) (get d id local.db)
        (get d id (join_topics d config answer topics local).db) (refl, refl, refl, refl)
        (get-subscribe_topic config.base_url topic no_opts c id
          ∙ get-add d config.base_url topic no_opts c.db id)
        (join_topics-Added topics local id)

  redirects-join_topics :
      (topics : List String) (c : Client d)
      → redirects d (join_topics d config answer topics c) ≤ redirects d c
  unfolding join_topics
  redirects-join_topics [] c = omega arith
  redirects-join_topics (topic ∷ topics) c =
      let result = subscribe_topic d config answer config.base_url topic no_opts c in
      let local : Client d = perform d (poll result.1) result.0 in
      omega (
        arith,
        redirects-join_topics topics local,
        (perform-Told d (poll result.1) result.0 refl).1,
        (subscribe_topic-Told config.base_url topic no_opts c).1,
      )

  -- After an invite was joined, whatever the home server answers about the single topics: every topic
  -- has a subscription, the subscriptions that were there are as they were, a new one is fresh, and
  -- nothing else is added; the page shows success, and the user is sent to the login at most once.
  pub handle_join-Added :
      (topics : List String) (page : Invite) (c : Client d) (id : String)
      → let after = handle_join d config answer (joined topics) page c in
        Added (map (topic_url config.base_url) topics) id (get d id c.db) (get d id after.1.db)
        × (after.0.join_success ≡ true)
        × (count is_redirect after.1.effects ≤ count is_redirect c.effects + 1)
  unfolding handle_join
  handle_join-Added topics page c id =
      let after = join_topics d config answer topics c in
      (
        join_topics-Added topics c id,
        refl,
        omega (
          arith,
          redirects-join_topics topics c,
          (perform-Told d go_home_later after refl).1,
          open_le c.session,
        ),
      )
