-- ===== src/Upgrade/Allowed.antt =====
-- When each of the actions is submitted.
use coop_messenger.Prelude.{
  ◌≡◌, refl, ◌∙◌, String, Bool, true, false, not, ◌&&◌, ◌||◌, Option, none, some, List, truthy, ltb,
  arith, Bool-cases, inl, inr,
}
use coop_messenger.Upgrade.{
  Tier, Plan, SubmitAction, redirect_signup, create_subscription, update_subscription,
  cancel_subscription, same, tier_of, pays_in, choose, exceeds, submit_action,
}

abbrev pub is_none {ℓ} : {A : Type ℓ} → Option A → Bool
is_none none = true
is_none (some a) = false

abbrev pub tier_code_of : Option Plan → Option String
tier_code_of none = none
tier_code_of (some plan) = plan.tier_code

-- The new tier and interval are those that the account has.
abbrev pub is_unchanged : Option Plan → Option String → String → Bool
is_unchanged none new_code interval = false
is_unchanged (some plan) new_code interval =
    same plan.tier_code new_code && pays_in plan.interval interval

-- A tier with a code is chosen that has fewer topics than are reserved.
abbrev pub is_too_small : Option Plan → Option Tier → Bool
is_too_small (some plan) (some tier) = truthy tier.code && ltb tier.reservations plan.reservations
is_too_small account tier = false

-- When an action, or none, is what it should be.
abbrev pub is_right :
    Option Plan → List Tier → Option String → String → Bool → Option SubmitAction → Bool
is_right account tiers new_code interval loading none =
    loading
    || (is_unchanged account new_code interval || is_too_small account (tier_of new_code tiers))
is_right account tiers new_code interval loading (some redirect_signup) =
    not loading && is_none account
is_right account tiers new_code interval loading (some create_subscription) =
    not loading
    && (not (is_none account)
        && (not (truthy (tier_code_of account))
            && (not (is_unchanged account new_code interval)
                && not (is_too_small account (tier_of new_code tiers)))))
is_right account tiers new_code interval loading (some update_subscription) =
    not loading
    && (truthy (tier_code_of account)
        && (truthy new_code
            && (not (is_unchanged account new_code interval)
                && not (is_too_small account (tier_of new_code tiers)))))
is_right account tiers new_code interval loading (some cancel_subscription) =
    not loading
    && (truthy (tier_code_of account)
        && (not (truthy new_code) && not (is_too_small account (tier_of new_code tiers))))

is_too_small-exceeds : (a : Option Plan) (t : Option Tier) → is_too_small a t ≡ exceeds a t
is_too_small-exceeds none none = refl
is_too_small-exceeds none (some t) = refl
is_too_small-exceeds (some p) none = refl
is_too_small-exceeds (some p) (some t) = refl

-- Nothing is submitted while a request is on its way, where nothing would change, and where a tier with
-- a code is chosen that has fewer topics than the account has reserved; the tier without a code, that
-- is the free one, may be chosen however many are reserved. Else a visitor is sent to the sign-up;
-- an account without a tier buys one; one with a tier gives it up where no new one is chosen, and
-- else changes it.
pub submit_action_right :
    (account : Option Plan) (tiers : List Tier) (new_code : Option String) (interval : String)
    (loading : Bool)
    → is_right account tiers new_code interval loading
        (submit_action account tiers new_code interval loading).0
      ≡ true
unfolding submit_action choose
submit_action_right none tiers new_code interval true = refl
submit_action_right none tiers new_code interval false = refl
submit_action_right (some plan) tiers new_code interval true = refl
submit_action_right (some plan) tiers new_code interval false =
    elim (Bool-cases (exceeds (some plan) (tier_of new_code tiers))) [
      | inl e ↦
          let small = is_too_small-exceeds (some plan) (tier_of new_code tiers) ∙ e in
          rw e (ground (arith, small))
      | inr e ↦
          let room = is_too_small-exceeds (some plan) (tier_of new_code tiers) ∙ e in
          elim (Bool-cases (same plan.tier_code new_code && pays_in plan.interval interval)) [
            | inl u ↦ rw (e, u) (ground (arith, u))
            | inr u ↦ elim (Bool-cases (truthy plan.tier_code)) [
              | inr c ↦ rw (e, u, c) (ground (arith, room, u, c))
              | inl c ↦ elim (Bool-cases (truthy new_code)) [
                | inl n ↦ rw (e, u, c, n) (ground (arith, room, u, c, n))
                | inr n ↦ rw (e, u, c, n) (ground (arith, room, u, c, n))
              ]
            ]
          ]
    ]
