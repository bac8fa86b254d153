-- ===== src/ConnectionManager/Listeners.antt =====
-- web/src/app/ConnectionManager.js: the listeners, and what a connection tells them. `W` is all that a
-- listener can change; a listener gives what it leaves, and the exception if it throws one.
use coop_messenger.Prelude.{String, Option, none, some, List, [], ◌∷◌}
use coop_messenger.Types.{Message}
use coop_messenger.Errors.{AppError}
use coop_messenger.Connection.{
  ConnectionState, Effect, state_changed, notification_received, social_event_received,
}

abbrev pub Callback : Type 0 → Type 0 → Type 0
Callback A W = String → A → W → W × Option AppError

pub record Listeners (W : Type 0) : Type 0 where
  pub state_listener : Option (Callback ConnectionState W)
  pub message_listener : Option (Callback Message W)
  pub social_event_listener : Option (Callback Message W)

module _ {W : Type 0} where
  -- The constructor.
  abbrev pub no_listeners : Listeners W
  no_listeners = record {
    state_listener = none;
    message_listener = none;
    social_event_listener = none;
  }

  unfoldable pub register_state_listener : Callback ConnectionState W → Listeners W → Listeners W
  register_state_listener f ls = record ls { state_listener = some f }

  unfoldable pub reset_state_listener : Listeners W → Listeners W
  reset_state_listener ls = record ls { state_listener = none }

  unfoldable pub register_message_listener : Callback Message W → Listeners W → Listeners W
  register_message_listener f ls = record ls { message_listener = some f }

  unfoldable pub reset_message_listener : Listeners W → Listeners W
  reset_message_listener ls = record ls { message_listener = none }

  unfoldable pub register_social_event_listener : Callback Message W → Listeners W → Listeners W
  register_social_event_listener f ls = record ls { social_event_listener = some f }

  unfoldable pub reset_social_event_listener : Listeners W → Listeners W
  reset_social_event_listener ls = record ls { social_event_listener = none }

  -- An exception is only logged.
  abbrev call : {A : Type 0} → Option (Callback A W) → String → A → W → W
  call none id x w = w
  call (some f) id x w = (f id x w).0

  unfoldable pub on_state_changed : Listeners W → String → ConnectionState → W → W
  on_state_changed ls id state w = call ls.state_listener id state w

  unfoldable pub on_notification_received : Listeners W → String → Message → W → W
  on_notification_received ls id notification w = call ls.message_listener id notification w

  unfoldable pub on_social_event_received : Listeners W → String → Message → W → W
  on_social_event_received ls id event w = call ls.social_event_listener id event w

  -- The callbacks that `refresh` gives to a new connection, on what the connection's handler asks for.
  unfoldable pub tell : Listeners W → List Effect → W → W
  unfolding on_state_changed on_notification_received on_social_event_received
  tell ls [] w = w
  tell ls (state_changed id state ∷ es) w = tell ls es (on_state_changed ls id state w)
  tell ls (notification_received id m ∷ es) w = tell ls es (on_notification_received ls id m w)
  tell ls (social_event_received id m ∷ es) w = tell ls es (on_social_event_received ls id m w)
  tell ls (e ∷ es) w = tell ls es w
