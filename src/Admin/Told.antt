-- ===== src/Admin/Told.antt =====
-- What the page requests, and what it says.
use coop_messenger.Prelude.{
  ℕ, suc, ◌≡◌, refl, ◌∙◌, ap, String, Bool, true, false, Option, List, [], ◌∷◌, ◌++◌, append_assoc,
  length, ◌===◌, Bool-cases, inl, inr, ◌⊎◌, if◌then◌else◌,
}
use coop_messenger.Types.{Config, Session}
use coop_messenger.Errors.{AppError, Result, ok, raise}
use coop_messenger.Account.{Request, Json}
use coop_messenger.Admin.{
  Tab, Change, create_user, resolve_join_request, delete_topic, grant_access, create_invite,
  delete_invite, success_of, returns_at_once, listing, change_request, fetch_users,
  fetch_topic_stats, fetch_join_requests, fetch_invites, refetch, handle, clear_fields,
  after_request,
}

module _ (config : Config) (session : Session) where
  abbrev users : Request
  users = listing config session "/v1/users"

  abbrev stats : Request
  stats = listing config session "/v1/admin/topics/stats"

  abbrev joins : Request
  joins = listing config session "/v1/join-requests?status=pending"

  abbrev invites : Request
  invites = listing config session "/v1/invites"

  -- What is listed anew behind each change, in order.
  abbrev pub listings : Change → List Request
  listings (resolve_join_request id status) =
      if status === "approved" then joins ∷ users ∷ [] else joins ∷ []
  listings (delete_topic topic) = stats ∷ users ∷ []
  listings create_invite = invites ∷ []
  listings (delete_invite token) = invites ∷ []
  listings change = users ∷ []

Result-cases :
    {A : Type 0} (o : Result A) → ((x : A) × (o ≡ ok x)) ⊎ ((e : AppError) × (o ≡ raise e))
Result-cases (ok x) = inl (x, refl)
Result-cases (raise e) = inr (e, refl)

abbrev pub is_done : {A : Type 0} → Result A → Bool
is_done (ok x) = true
is_done (raise e) = false

module _ {Row : Type 0} (config : Config) (session : Session) (encode : String → String)
    (parse_int : String → Option ℕ) (seconds : String → Json) (message : AppError → String)
    (answer : ℕ → Request → Result (Option (List Row))) where
  abbrev pub error_text : Result (Option (List Row)) → String
  error_text (ok json) = ""
  error_text (raise e) = message e

  -- The error that is told of the listings, if the first of them has the number n: that of the last
  -- one, unless it is that of requests to join.
  abbrev pub told_error : Change → ℕ → String
  told_error (resolve_join_request id status) n =
      if status === "approved" then error_text (answer (suc n) (users config session)) else ""
  told_error (delete_topic topic) n = error_text (answer (suc n) (users config session))
  told_error create_invite n = error_text (answer n (invites config session))
  told_error (delete_invite token) n = error_text (answer n (invites config session))
  told_error change n = error_text (answer n (users config session))

  -- What the listing of users or of invites makes of the texts and of the requests.
  abbrev IsListed : Request → Tab Row → Tab Row → Type 0
  IsListed r s s' =
      (s'.error ≡ error_text (answer (length s.requests) r))
      × (s'.success ≡ s.success)
      × (s'.requests ≡ s.requests ++ r ∷ [])

  fetch_users-IsListed :
      (s : Tab Row)
      → IsListed (users config session) s (fetch_users config session message answer s)
  unfolding fetch_users
  fetch_users-IsListed s = elim (Result-cases (answer (length s.requests) (users config session))) [
    | inl (json, e) ↦ rw (e, fetch_users) (refl, refl, refl)
    | inr (x, e) ↦ rw (e, fetch_users) (refl, refl, refl)
  ]

  fetch_invites-IsListed :
      (s : Tab Row)
      → IsListed (invites config session) s (fetch_invites config session message answer s)
  unfolding fetch_invites
  fetch_invites-IsListed s =
      elim (Result-cases (answer (length s.requests) (invites config session))) [
        | inl (json, e) ↦ rw (e, fetch_invites) (refl, refl, refl)
        | inr (x, e) ↦ rw (e, fetch_invites) (refl, refl, refl)
      ]

  stats_kept :
      (s : Tab Row)
      → let s' = fetch_topic_stats config session message answer s in
        (s'.success ≡ s.success) × (s'.requests ≡ s.requests ++ stats config session ∷ [])
  unfolding fetch_topic_stats
  stats_kept s = elim (Result-cases (answer (length s.requests) (stats config session))) [
    | inl (json, e) ↦ rw (e, fetch_topic_stats) (refl, refl)
    | inr (x, e) ↦ rw (e, fetch_topic_stats) (refl, refl)
  ]

  joins_kept :
      (s : Tab Row)
      → let s' = fetch_join_requests config session message answer s in
        (s'.error ≡ s.error)
        × (s'.success ≡ s.success)
        × (s'.requests ≡ s.requests ++ joins config session ∷ [])
  unfolding fetch_join_requests
  joins_kept s = elim (Result-cases (answer (length s.requests) (joins config session))) [
    | inl (json, e) ↦ rw (e, fetch_join_requests) (refl, refl, refl)
    | inr (x, e) ↦ rw (e, fetch_join_requests) (refl, refl, refl)
  ]

  -- What the listings behind a change make of the texts and of the requests.
  abbrev IsFollowed : Change → Tab Row → Tab Row → Type 0
  IsFollowed change s s' =
      (s'.error ≡ told_error change (length s.requests))
      × (s'.success ≡ s.success)
      × (s'.requests ≡ s.requests ++ listings config session change)

  length-append_request :
      (rs : List Request) (r : Request) → length (rs ++ r ∷ []) ≡ suc (length rs)
  length-append_request [] r = refl
  length-append_request (x ∷ rs) r = ap suc (length-append_request rs r)

  cleared :
      (change : Change) (s : Tab Row)
      → ((clear_fields change s).error ≡ s.error)
        × ((clear_fields change s).success ≡ s.success)
        × ((clear_fields change s).requests ≡ s.requests)
  cleared create_user s = (refl, refl, refl)
  cleared grant_access s = (refl, refl, refl)
  cleared create_invite s = (refl, refl, refl)
  cleared change s = (refl, refl, refl)

  refetch-IsFollowed :
      (change : Change) (s : Tab Row)
      → s.error ≡ ""
      → IsFollowed change s (refetch config session message answer change s)
  unfolding refetch
  refetch-IsFollowed create_invite s h = fetch_invites-IsListed s
  refetch-IsFollowed (delete_invite token) s h = fetch_invites-IsListed s
  refetch-IsFollowed (delete_topic topic) s h =
      let counted = fetch_topic_stats config session message answer s in
      let (told, kept, asked_users) = fetch_users-IsListed counted in
      let (kept', asked_stats) = stats_kept s in
      (
        told ∙ rw (asked_stats, length-append_request) refl,
        kept ∙ kept',
        asked_users ∙ rw (asked_stats, append_assoc) refl,
      )
  refetch-IsFollowed (resolve_join_request id status) s h =
      let (clear, kept', asked_joins) = joins_kept s in
      elim (Bool-cases (status === "approved")) [
        | inl approved ↦
            let (told, kept, asked_users) =
              fetch_users-IsListed (fetch_join_requests config session message answer s) in
            rw approved (
              told ∙ rw (asked_joins, length-append_request) refl,
              kept ∙ kept',
              asked_users ∙ rw (asked_joins, append_assoc) refl,
            )
        | inr denied ↦ rw denied (clear ∙ h, kept', asked_joins)
      ]
  refetch-IsFollowed change s h = fetch_users-IsListed s

  abbrev sent : Change → Tab Row → Request
  sent change s = change_request config session encode parse_int seconds change s

  -- If a handler does not return at once, its request comes first. If that fails, then its error is shown,
  -- no text of success is, and nothing else is requested. If it is done, then the
  -- text of success is shown, the lists are fetched that the change concerns, and the error that is
  -- shown is that of the last one of them, or none: not that of requests to join, and not that of the
  -- statistics of chats, which is lost.
  pub handle-told :
      (change : Change) (s : Tab Row)
      → returns_at_once change s ≡ false
      → let r = change_request config session encode parse_int seconds change s in
        let n = length s.requests in
        let done = is_done (answer n r) in
        let s' = handle config session message answer encode parse_int seconds change s in
        (s'.success ≡ (if done then success_of change else ""))
        × (s'.error ≡ (if done then told_error change (suc n) else error_text (answer n r)))
        × (s'.requests ≡ s.requests ++ r ∷ (if done then listings config session change else []))
  unfolding handle
  handle-told change s h = elim (Result-cases (answer (length s.requests) (sent change s))) [
    | inl (json, e) ↦
        let done : Tab Row =
          clear_fields change
            (record (after_request config session message answer (sent change s) s) {
              success = success_of change;
              error = "";
            }) in
        let kept =
          cleared change (record (after_request config session message answer (sent change s) s) {
            success = success_of change;
            error = "";
          }) in
        let (error, success, requests) = refetch-IsFollowed change done kept.0 in
        rw (h, e, handle)
          (
            success ∙ kept.1,
            error
                ∙ ap (told_error change)
                    (rw kept.2 (length-append_request s.requests (sent change s))),
            requests ∙ rw (kept.2, append_assoc) refl,
          )
    | inr (x, e) ↦ rw (h, e, handle) (refl, refl, refl)
  ]
