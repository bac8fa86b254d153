-- ===== src/Errors/Classes.antt =====
-- fetchOrThrow: which response is turned into which error.
use coop_messenger.Prelude.{ℕ, ◌≡◌, ◌≢◌, ◌⊎◌, ◌↔◌, Option, none, some, arith}
use coop_messenger.Errors.{
  Response, ok, raise, unauthorized, user_exists, topic_reserved, account_create_limit_reached,
  incorrect_password, fetch_or_throw,
}

abbrev pub IsDenied : Response → Type 0
IsDenied r = (r.status ≡ 401) ⊎ (r.status ≡ 403)

-- The code in the body of a response that is JSON.
abbrev pub code_of : Response → Option ℕ
code_of r = elim r.error_body [ none ↦ none | some b ↦ b.code ]

abbrev pub HasCode : ℕ → Response → Type 0
HasCode k r = (r.status ≢ 200) × (r.status ≢ 401) × (r.status ≢ 403) × (code_of r ≡ some k)

-- A response is returned exactly if its status is 200. Status 401 and 403, and they alone, are
-- turned into the unauthorized error, whatever the body says; the other application errors stand
-- each for its code in the body of any other response.
fetch_or_throw_iff :
    (r : Response)
    → ((fetch_or_throw (some r) ≡ ok r) ↔ (r.status ≡ 200))
      × ((fetch_or_throw (some r) ≡ raise unauthorized) ↔ IsDenied r)
      × ((fetch_or_throw (some r) ≡ raise user_exists) ↔ HasCode 40901 r)
      × ((fetch_or_throw (some r) ≡ raise topic_reserved) ↔ HasCode 40902 r)
      × ((fetch_or_throw (some r) ≡ raise account_create_limit_reached) ↔ HasCode 42906 r)
      × ((fetch_or_throw (some r) ≡ raise incorrect_password) ↔ HasCode 40026 r)
unfolding fetch_or_throw
fetch_or_throw_iff r =
    (ground arith, ground arith, ground arith, ground arith, ground arith, ground arith)
