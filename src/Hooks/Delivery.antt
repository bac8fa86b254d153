-- ===== src/Hooks/Delivery.antt =====
-- useConnectionListeners of web/src/components/hooks.js with web/src/app/ConnectionManager.js: the way of a
-- message from the socket to the database.
use coop_messenger.Prelude.{String, ◌≡◌, Option, none, some, List, ◌++◌}
use coop_messenger.Types.{Message, Subscription, Session}
use coop_messenger.Db.{Dexie, Db}
use coop_messenger.Errors.{Result, AppError}
use coop_messenger.Connection.{
  Connection, ConnectionState, connected, connecting, Frame, on_message,
}
use coop_messenger.ConnectionManager.Listeners.{
  Listeners, register_state_listener, register_message_listener, reset_state_listener,
  reset_message_listener, tell,
}
use coop_messenger.Subscriptions.{get, update_state, sequence_of, in_sequence}
use coop_messenger.Subscriptions.Stored.{stored_message}
use coop_messenger.Subscriptions.Stored.Laws.{stored}
use coop_messenger.Hooks.{Effect, handle_message}

abbrev pub state_name : ConnectionState → String
state_name connected = "connected"
state_name connecting = "connecting"

module _ (d : Dexie) where
  pub record World : Type 0 where
    pub db : Db d
    pub effects : List Effect

  module _ (parse_event : Option String → Result (Option String)) (session : Session) where
    -- The listeners are async: what one of them throws rejects its promise, and is not thrown to the
    -- connection manager.
    abbrev pub message_listener : String → Message → World → World × Option AppError
    message_listener id m w =
        let o = handle_message d parse_event session id m w.db in
        (record { db = o.db; effects = w.effects ++ o.effects }, none)

    abbrev pub state_listener : String → ConnectionState → World → World × Option AppError
    state_listener id state w = (record w { db = update_state d id (state_name state) w.db }, none)

    -- The effect that registers the listeners, and its cleanup.
    unfoldable pub mount : Listeners World → Listeners World
    unfolding handle_message update_state register_state_listener register_message_listener
    mount ls =
        register_message_listener message_listener (register_state_listener state_listener ls)

    unfoldable pub unmount : Listeners World → Listeners World
    unfolding reset_state_listener reset_message_listener
    unmount ls = reset_message_listener (reset_state_listener ls)

    -- What the socket hands on, and what the listeners make of it.
    unfoldable pub receive :
        Listeners World → Option Frame → Connection → World → Connection × World
    unfolding on_message tell
    receive ls f c w = ((on_message f c).0, tell ls (on_message f c).1 w)

  module _ (parse_event : Option String → Result (Option String)) (session : Session) where
    abbrev Replaces : Subscription → Message → Db d → Type 0
    Replaces s m db =
        (stored d (in_sequence s.id (sequence_of m)) db ≡ 1)
        × (d.notifications.get m.id db.notifications ≡ some (stored_message session s.id m))
