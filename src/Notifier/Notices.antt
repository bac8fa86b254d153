-- ===== src/Notifier/Notices.antt =====
-- Which notices are shown.
use coop_messenger.Prelude.{
  ◌≡◌, refl, ap, sym, ◌∙◌, Bool, true, false, not, ◌&&◌, ◌||◌, List, [], ◌∷◌, ◌++◌, arith,
}
use coop_messenger.Notifier.{
  Browser, Permission, undecided, allowed, refused, Notice, context_supported, browser_supported,
  supported, not_requested, granted, denied, ios_supported_but_install_required, push_possible,
  push_supported, notices, alert_visible, shown_if, permission_required, permission_denied,
  browser_not_supported, context_not_supported, ios_install_required, is_undecided, is_allowed,
  is_refused,
}

abbrev pub is_nil {ℓ} : {A : Type ℓ} → List A → Bool
is_nil [] = true
is_nil (x ∷ xs) = false

is_nil-eq {ℓ} : {A : Type ℓ} (xs : List A) → is_nil xs ≡ true → xs ≡ []
is_nil-eq [] h = refl
is_nil-eq (x ∷ xs) h = ground (arith, h)

-- What stands in the way of notifications, if anything does, where nothing is to be installed.
abbrev pub obstacle : Bool → Bool → Permission → List Notice
obstacle false context p = browser_not_supported ∷ []
obstacle true false p = context_not_supported ∷ []
obstacle true true undecided = permission_required ∷ []
obstacle true true allowed = []
obstacle true true refused = permission_denied ∷ []

shown :
    (browser context : Bool) (p : Permission)
    → shown_if ((browser && context) && is_undecided p) permission_required
        ++ shown_if ((browser && context) && is_refused p) permission_denied
        ++ shown_if (true && not browser) browser_not_supported
        ++ shown_if (browser && not context) context_not_supported
        ++ []
      ≡ obstacle browser context p
shown true true undecided = refl
shown true true allowed = refl
shown true true refused = refl
shown true false p = refl
shown false context p = refl

granted-obstacle :
    (browser context : Bool) (p : Permission)
    → (browser && context) && is_allowed p ≡ is_nil (obstacle browser context p)
granted-obstacle true true undecided = refl
granted-obstacle true true allowed = refl
granted-obstacle true true refused = refl
granted-obstacle true false p = refl
granted-obstacle false context p = refl

shown_any :
    (a b c d e : Bool)
    → (false || (a || (b || (e || (c || d)))))
      ≡ not (
          is_nil (
            shown_if a permission_required
            ++ shown_if b permission_denied
            ++ shown_if c browser_not_supported
            ++ shown_if d context_not_supported
            ++ shown_if e ios_install_required))
shown_any true b c d e = refl
shown_any false true c d e = refl
shown_any false false true d true = refl
shown_any false false true d false = refl
shown_any false false false true true = refl
shown_any false false false true false = refl
shown_any false false false false true = refl
shown_any false false false false false = refl

-- Without a new version, the box of notices is visible exactly if one of them is shown.
alert_visible-notices : (b : Browser) → alert_visible false b ≡ not (is_nil (notices b))
unfolding alert_visible notices
alert_visible-notices b =
    shown_any (not_requested b) (denied b)
      (not (ios_supported_but_install_required b) && not (browser_supported b))
      (browser_supported b && not (context_supported b)) (ios_supported_but_install_required b)

-- Unless the application has to be installed first, one notice at most is shown, the first obstacle:
-- the browser, the page's address, the user's decision; and none is exactly if notifications are granted.
notices-obstacle :
    (b : Browser)
    → ios_supported_but_install_required b ≡ false
    → (notices b ≡ obstacle (browser_supported b) (context_supported b) b.permission)
      × (is_nil (notices b) ≡ granted b)
      × (alert_visible false b ≡ not (granted b))
unfolding notices not_requested denied granted supported
notices-obstacle b h = (first, none_is, alert_visible-notices b ∙ ap not none_is)
  where
    first : notices b ≡ obstacle (browser_supported b) (context_supported b) b.permission
    first = rw h (shown (browser_supported b) (context_supported b) b.permission)

    none_is : is_nil (notices b) ≡ granted b
    none_is =
        ap is_nil first
        ∙ sym (granted-obstacle (browser_supported b) (context_supported b) b.permission)

-- Where web push is possible no notice is shown, and web push is supported.
push_possible_lem :
    (b : Browser) → push_possible b ≡ true → (notices b ≡ []) × (push_supported b ≡ true)
unfolding push_possible
push_possible_lem b h =
    let ios : ios_supported_but_install_required b ≡ false = ground (arith, h) in
    let given : granted b ≡ true = ground (arith, h) in
    (is_nil-eq (notices b) ((notices-obstacle b ios).1 ∙ given), ground (arith, h))
