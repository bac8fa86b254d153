-- ===== src/Upgrade.antt =====
-- web/src/components/UpgradeDialog.jsx: what the dialog for another tier submits, and what comes of it.
pub mod Allowed
use coop_messenger.Prelude.{
  ℕ, String, Bool, true, false, not, ◌&&◌, ◌||◌, Option, none, some, List, [], ◌∷◌, ◌===◌, find,
  ltb, truthy, some_eq, or_else, if◌then◌else◌,
}
use coop_messenger.Types.{Config, Session}
use coop_messenger.Errors.{AppError, unauthorized}
use coop_messenger.Account.{Request}
use coop_messenger.Account.Requests.{
  create_billing_subscription, update_billing_subscription, delete_billing_subscription,
}

-- A tier that the server offers; the free one has no code.
pub record Tier : Type 0 where
  pub code : Option String
  pub reservations : ℕ

-- What the dialog reads of the account: its tier, the interval it pays in, and how many topics it has
-- reserved.
pub record Plan : Type 0 where
  pub tier_code : Option String
  pub interval : Option String
  pub reservations : ℕ

pub data SubmitAction : Type 0 where
  redirect_signup : SubmitAction
  create_subscription : SubmitAction
  update_subscription : SubmitAction
  cancel_subscription : SubmitAction

pub data Banner : Type 0 where
  cancel_warning : Banner
  proration_info : Banner
  reservations_warning : Banner

-- `a === b` on values that may be undefined
abbrev pub same : Option String → Option String → Bool
same none none = true
same none (some b) = false
same (some a) none = false
same (some a) (some b) = a === b

-- `tiersMap[newTierCode]` where a later tier with the same code replaces an earlier one; the codes that
-- the server gives are different.
abbrev pub tier_of : Option String → List Tier → Option Tier
tier_of code = find (λ t. same t.code code)

abbrev pub pays_in : Option String → String → Bool
pays_in none interval = true
pays_in (some current) interval = current === interval

-- The choice before the exceptional conditions.
unfoldable pub choose : Option Plan → Option String → String → Option SubmitAction × Option Banner
choose none new_code interval = (some redirect_signup, none)
choose (some plan) new_code interval =
    if same plan.tier_code new_code && pays_in plan.interval interval
    then (none, if truthy plan.tier_code then some proration_info else none)
    else if not (truthy plan.tier_code)
    then (some create_subscription, none)
    else if not (truthy new_code)
    then (some cancel_subscription, some cancel_warning)
    else (some update_subscription, some proration_info)

-- More topics are reserved than the new tier has.
abbrev pub exceeds : Option Plan → Option Tier → Bool
exceeds none tier = false
exceeds (some plan) none = false
exceeds (some plan) (some tier) = truthy tier.code && ltb tier.reservations plan.reservations

unfoldable pub submit_action :
    Option Plan → List Tier → Option String → String → Bool → Option SubmitAction × Option Banner
unfolding choose
submit_action account tiers new_code interval loading =
    let chosen = choose account new_code interval in
    if loading
    then (none, chosen.1)
    else if exceeds account (tier_of new_code tiers)
    then (none, some reservations_warning)
    else chosen

-- What happens then.
pub data UpgradeEffect : Type 0 where
  go_to_signup : UpgradeEffect
  send : Request → UpgradeEffect
  go_to_payment : UpgradeEffect
  close : UpgradeEffect
  go_to_login : UpgradeEffect
  show_error : AppError → UpgradeEffect

abbrev pub after_answer : Option AppError → List UpgradeEffect → List UpgradeEffect
after_answer none effects = effects
after_answer (some unauthorized) effects = go_to_login ∷ []
after_answer (some e) effects = show_error e ∷ []

module _ (config : Config) (session : Session) (answer : Request → Option AppError) where
  -- `handleSubmit`; the button is disabled where there is no action.
  unfoldable pub handle_submit : Option String → String → SubmitAction → List UpgradeEffect
  unfolding create_billing_subscription update_billing_subscription delete_billing_subscription
  handle_submit new_code interval redirect_signup = go_to_signup ∷ []
  handle_submit new_code interval create_subscription =
      let r = create_billing_subscription config session (or_else new_code "") interval in
      send r ∷ after_answer (answer r) (go_to_payment ∷ close ∷ [])
  handle_submit new_code interval update_subscription =
      let r = update_billing_subscription config session (or_else new_code "") interval in
      send r ∷ after_answer (answer r) (close ∷ [])
  handle_submit new_code interval cancel_subscription =
      let r = delete_billing_subscription config session in
      send r ∷ after_answer (answer r) (close ∷ [])
