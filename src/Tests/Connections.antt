-- ===== src/Tests/Connections.antt =====
-- web/src/app/Connection.js, web/src/app/ConnectionManager.js and web/src/app/utils.js.
use coop_messenger.Prelude.{
  if◌then◌else◌, ◌+◌, ◌≤◌, ◌≡◌, refl, false, none, some, List, [], arith, ◌∷◌, map, length,
}
use coop_messenger.Utils.Lines.{Text, drain, next_line, fetch_lines, fetch_lines-lines_from}
use coop_messenger.Utils.Lines.Ends.{drain_ends}
use coop_messenger.Connection.{
  retry_seconds, Connection, on_close, on_open, set_timeout, state_changed, connecting,
}
use coop_messenger.Connection.Backoff.{delay, on_close_backoff}
use coop_messenger.Connection.Life.{
  Life, started, after_close, after_close_event, Reach, here, next, closed, Reach-IsSingle,
  close_reopens,
}
use coop_messenger.ConnectionManager.{
  Manager, includes_id, target_ids, target_of, get, make_connection_id, refresh,
}
use coop_messenger.ConnectionManager.Refresh.{
  closing, effects_of, IsReconciled, refresh-IsReconciled,
}
use coop_messenger.Tests.{chat, news}

-- a connection that died five times
abbrev dying : Connection
dying = record {
  connection_id = 7;
  subscription_id = chat.id;
  base_url = "https://coop";
  topic = "chat";
  user = none;
  since = some "m1";
  ws = some 1;
  retry_count = 4;
  retry_timeout = none;
}

on_close_backoff_example :
    ((on_close false 3 dying).1 ≡ set_timeout 3 60000 ∷ state_changed chat.id connecting ∷ [])
    × (5000 ≤ delay dying)
    × (delay dying ≤ 120000)
    × (delay dying ≤ delay (on_close false 3 dying).0)
    × (delay (on_open (on_close false 3 dying).0).0 ≡ 5000)
unfolding retry_seconds
on_close_backoff_example = on_close_backoff 3 dying

abbrev died : Life
died = after_close_event false 1 3 (started 1 dying)

Reach-IsSingle_example :
    (length died.live + length died.armed ≤ 1) × ((after_close died).armed ≡ [])
Reach-IsSingle_example =
    Reach-IsSingle 1 dying {l = died} (next here (closed (started 1 dying) false 1 3 refl))

close_reopens_example :
    (m : Life) × Reach (after_close (started 1 dying)) m × (m.live ≡ 5 ∷ []) × (m.conn.ws ≡ some 5)
close_reopens_example = close_reopens (started 1 dying) 1 3 5 refl

abbrev none_open : Manager
none_open = record { connections = []; sockets = 0 }

refresh-IsReconciled_example :
    IsReconciled
      (make_connection_id chat none)
      (map (target_of []) (chat ∷ news ∷ []))
      (get (make_connection_id chat none) [])
      (get
        (make_connection_id chat none)
        (refresh (some (chat ∷ news ∷ [])) (some []) none_open).manager.connections)
    × (closing
          (make_connection_id chat none)
          (refresh (some (chat ∷ news ∷ [])) (some []) none_open).closed
        ≡ (if includes_id
              (make_connection_id chat none)
              (target_ids (map (target_of []) (chat ∷ news ∷ [])))
            then none
            else effects_of (get (make_connection_id chat none) [])))
refresh-IsReconciled_example =
    refresh-IsReconciled (chat ∷ news ∷ []) [] none_open (make_connection_id chat none)

-- "ab\nc" in two chunks, cut before the end of the first line
abbrev chunks : List Text
chunks = (97 ∷ []) ∷ (98 ∷ 10 ∷ 99 ∷ []) ∷ []

fetch_lines-lines_from_example :
    fetch_lines (λ bytes. bytes) chunks ≡ (97 ∷ 98 ∷ []) ∷ (99 ∷ []) ∷ []
fetch_lines-lines_from_example = fetch_lines-lines_from (λ bytes. bytes) chunks

-- "a\nb", drained in more rounds than needed
abbrev chunk : Text
chunk = 97 ∷ 10 ∷ 98 ∷ []

drain_ends_example :
    (drain 9 chunk ≡ drain 3 chunk)
    × (length (drain 9 chunk).0 ≤ 3)
    × (next_line (drain 9 chunk).1 ≡ none)
drain_ends_example = drain_ends 9 chunk (omega arith)
