-- ===== src/Tests/Delivery.antt =====
-- A message on its way from the socket to the database.
use coop_messenger.Prelude.{String, Option, true, none, some, []}
use coop_messenger.Types.{Message}
use coop_messenger.Events.{event_message}
use coop_messenger.Db.{assoc_dexie}
use coop_messenger.Errors.{Result, ok}
use coop_messenger.Connection.{Connection, Frame, new_connection}
use coop_messenger.Hooks.Delivery.{World}
use coop_messenger.Tests.{sent, some_db}

abbrev world : World assoc_dexie
world = record { db = some_db; effects = [] }

abbrev edited : Message
edited = sent "m4" event_message 400 (some "s1")

abbrev frame : Frame
frame = record { message = edited; has_id = true; has_time = true }

abbrev open_connection : Connection
open_connection = new_connection 7 "https://coop/chat" "https://coop" "chat" none (some "m2")

abbrev no_event : Option String → Result (Option String)
no_event s = ok none
