-- ===== src/Display/Buttons.antt =====
-- web/src/app/notificationUtils.js and web/public/sw.js: what a click on a button of a notification finds.
use mathlib.Core.Path.{subst}
use mathlib.Core.Option.{some_inj, none-ne-some}
use coop_messenger.Prelude.{
  ℕ, zero, suc, ◌≤◌, ◌≡◌, refl, String, Bool, true, Option, none, some, List, [], ◌∷◌, map, filter,
  find, count, ◌===◌, eq_refl, arith, Bool-cases, ◌⊎◌, inl, inr,
}
use coop_messenger.Types.{Message, Action}
use coop_messenger.Commands.Input.{get_elem}
use coop_messenger.ServiceWorker.Click.{action_of}
use coop_messenger.Display.{Button, is_button, button_of, buttons_of, to_notification_params}

-- No two actions have the same label.
abbrev pub HasDistinctLabels : List Action → Type 0
HasDistinctLabels actions = (label : String) → count (λ (a : Action). label === a.label) actions ≤ 1

abbrev Found : List Action → Button → Type 0
Found actions b =
    (a : Action) × (find (λ (x : Action). b.action === x.label) actions ≡ some a)
    × (a.label ≡ b.title)
    × (is_button a ≡ true)

count-find :
    (p : Action → Bool) (actions : List Action) (a : Action)
    → find p actions ≡ some a
    → 1 ≤ count p actions
count-find p [] a h = absurd (none-ne-some a h)
count-find p (x ∷ xs) a h = ground (arith, count-find p xs a)

-- What is found behind an action is found with it, as the labels are distinct.
Found-behind :
    (x : Action) (xs : List Action) (b : Button)
    → HasDistinctLabels (x ∷ xs)
    → Found xs b
    → Found (x ∷ xs) b
Found-behind x xs b distinct (a, at, label, shown) = (
  a,
  ground (arith, at, distinct b.action, count-find (λ (y : Action). b.action === y.label) xs a),
  label,
  shown,
)

get_elem-cons :
    (c b : Button) (bs : List Button) (i : ℕ)
    → get_elem (c ∷ bs) i ≡ some b
    → (c ≡ b) ⊎ ((j : ℕ) × (get_elem bs j ≡ some b))
get_elem-cons c b bs zero h = inl (some_inj.0 h)
get_elem-cons c b bs (suc j) h = inr (j, h)

Found-here : (x : Action) (xs : List Action) → is_button x ≡ true → Found (x ∷ xs) (button_of x)
Found-here x xs shown = (x, rw (eq_refl x.label) refl, refl, shown)

buttons-Found :
    (actions : List Action)
    → HasDistinctLabels actions
    → (i : ℕ) (b : Button) → get_elem (map button_of (filter is_button actions)) i ≡ some b
    → Found actions b
buttons-Found [] distinct i b h = absurd (none-ne-some b h)
buttons-Found (x ∷ xs) distinct i b h = elim (Bool-cases (is_button x)) [
  | inl shown ↦
      let h' : get_elem (button_of x ∷ map button_of (filter is_button xs)) i ≡ some b =
        rw shown at h in
      elim (get_elem-cons (button_of x) b (map button_of (filter is_button xs)) i h') [
        | inl here ↦ subst (Found (x ∷ xs)) here (Found-here x xs shown)
        | inr (j, behind) ↦ Found-behind x xs b distinct (buttons-Found xs fewer j b behind)
      ]
  | inr hidden ↦ Found-behind x xs b distinct (buttons-Found xs fewer i b (rw hidden at h))
]
  where
    fewer : HasDistinctLabels xs
    fewer label = omega (arith, distinct label)

-- The button, as `actions` of the notification's options.
abbrev pub button_at : Option (List Button) → ℕ → Option Button
button_at none i = none
button_at (some buttons) i = get_elem buttons i

-- Where the labels of a message's actions are distinct, a click on any button of its notification finds
-- the action that has the button's title, and it is one that opens a link or sends a request.
action_of-to_notification_params :
    (emoji_of : String → Option String) (has_image_name : String → Bool) (m : Message)
    (actions : List Action) (default_title topic_route base_url topic : String) (i : ℕ) (b : Button)
    → m.actions ≡ some actions
    → HasDistinctLabels actions
    → button_at
        (to_notification_params emoji_of has_image_name m default_title topic_route base_url
          topic).buttons
        i
      ≡ some b
    → (a : Action) × (action_of b.action m ≡ some a) × (a.label ≡ b.title) × (is_button a ≡ true)
unfolding to_notification_params buttons_of
action_of-to_notification_params emoji_of has_image_name m actions t r u p i b e distinct h =
    let (a, at, label, shown) = buttons-Found actions distinct i b (rw e at h) in
    (a, rw e at, label, shown)
