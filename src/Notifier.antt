-- ===== src/Notifier.antt =====
-- web/src/app/Notifier.js: whether the browser can show notifications and receive web push; and the
-- notices about it at the top of web/src/components/Navigation.jsx.
pub mod Notices
use text.Mathlib.Text.{starts_with}
use coop_messenger.Prelude.{
  String, Bool, true, false, not, ◌&&◌, ◌||◌, Option, none, some, List, [], ◌∷◌, ◌++◌, ◌===◌,
  if◌then◌else◌,
}

-- `Notification.permission`: "default", "granted" or "denied".
pub data Permission : Type 0 where
  undecided : Permission
  allowed : Permission
  refused : Permission

-- What the methods read of `window`, `navigator` and the configuration.
pub record Browser : Type 0 where
  pub enable_web_push : Bool
  pub has_notification : Bool
  pub permission : Permission
  pub has_service_worker : Bool
  pub has_push_manager : Bool
  pub standalone : Option Bool
  pub protocol : String
  pub hostname : String

-- `hostname.match("^127.")`: some character follows, as a host name has no line breaks.
unfoldable pub is_loopback : String → Bool
is_loopback hostname = starts_with hostname "127" && not (hostname === "127")

unfoldable pub context_supported : Browser → Bool
unfolding is_loopback
context_supported b =
    (b.protocol === "https:") || (is_loopback b.hostname || (b.hostname === "localhost"))

unfoldable pub browser_supported : Browser → Bool
browser_supported b = b.has_notification

unfoldable pub supported : Browser → Bool
unfolding browser_supported context_supported
supported b = browser_supported b && context_supported b

abbrev pub is_undecided : Permission → Bool
is_undecided undecided = true
is_undecided allowed = false
is_undecided refused = false

abbrev pub is_allowed : Permission → Bool
is_allowed undecided = false
is_allowed allowed = true
is_allowed refused = false

abbrev pub is_refused : Permission → Bool
is_refused undecided = false
is_refused allowed = false
is_refused refused = true

unfoldable pub not_requested : Browser → Bool
unfolding supported
not_requested b = supported b && is_undecided b.permission

unfoldable pub granted : Browser → Bool
unfolding supported
granted b = supported b && is_allowed b.permission

unfoldable pub denied : Browser → Bool
unfolding supported
denied b = supported b && is_refused b.permission

unfoldable pub push_supported : Browser → Bool
push_supported b = b.enable_web_push && (b.has_service_worker && b.has_push_manager)

-- `window.navigator.standalone === false`
abbrev pub is_not_standalone : Option Bool → Bool
is_not_standalone none = false
is_not_standalone (some b) = not b

unfoldable pub ios_supported_but_install_required : Browser → Bool
ios_supported_but_install_required b =
    b.enable_web_push
    && (b.has_service_worker && (not b.has_push_manager && is_not_standalone b.standalone))

unfoldable pub push_possible : Browser → Bool
unfolding push_supported context_supported granted ios_supported_but_install_required
push_possible b =
    push_supported b
    && (context_supported b && (granted b && not (ios_supported_but_install_required b)))

-- `if (!this.supported()) return false`, and else what the user answers to the request.
unfoldable pub maybe_request_permission : Permission → Browser → Bool
unfolding supported
maybe_request_permission answer b = if not (supported b) then false else is_allowed answer

-- The notices of the navigation, but the one of a new version, and whether they are shown.
pub data Notice : Type 0 where
  permission_required : Notice
  permission_denied : Notice
  browser_not_supported : Notice
  context_not_supported : Notice
  ios_install_required : Notice

-- `{test && <Notice />}`
abbrev pub shown_if : Bool → Notice → List Notice
shown_if true notice = notice ∷ []
shown_if false notice = []

unfoldable pub notices : Browser → List Notice
unfolding not_requested denied ios_supported_but_install_required browser_supported
    context_supported
notices b =
    shown_if (not_requested b) permission_required
    ++ shown_if (denied b) permission_denied
    ++ shown_if (not (ios_supported_but_install_required b) && not (browser_supported b))
        browser_not_supported
    ++ shown_if (browser_supported b && not (context_supported b)) context_not_supported
    ++ shown_if (ios_supported_but_install_required b) ios_install_required

unfoldable pub alert_visible : Bool → Browser → Bool
unfolding not_requested denied ios_supported_but_install_required browser_supported
    context_supported
alert_visible version_changed b =
    version_changed
    || (not_requested b
        || (denied b
            || (ios_supported_but_install_required b
                || ((not (ios_supported_but_install_required b) && not (browser_supported b))
                    || (browser_supported b && not (context_supported b))))))
