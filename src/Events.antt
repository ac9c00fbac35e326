-- ===== src/Events.antt =====
-- event/spy_event.c: what a handler calls when it has read or written all that it could, and the
-- connections that `spy_event_init` sets up. Connection `i` gets the events `2 * i` and `2 * i + 1`,
-- which stand for the entries `i` of the arrays of read and of write events.
pub mod Handle
pub mod Init
pub mod Write
mod Tests
use mysqlproxy.Base.{
  ℕ, zero, suc, ◌+◌, ◌*◌, ◌%◌, Bool, true, false, not, ◌&&◌, ◌||◌, Option, none, some, ◌==◌,
  if◌then◌else◌,
}
use mysqlproxy.Base.Runs.{Run, ok, fault, ◌>>=◌}
use mysqlproxy.State.{
  Status, ok_status, error_status, Event, Connection, World, owner, set_event, set_connection,
}
use mysqlproxy.Select.{read_event, write_event, add_event, del_event}
use mysqlproxy.Connections.{mark_closed}

-- `flags & SPY_CLOSE_EVENT`
abbrev pub closes : ℕ → Bool
closes flags = flags % 2 == 1

-- `spy_handle_read_event`
unfoldable pub handle_read_event : World → ℕ → ℕ → Run (Status × World)
handle_read_event w e flags =
    let v = w.events e in
    if not v.active && not v.ready
    then add_event w e read_event
    else if v.active && (v.ready || closes flags)
    then del_event w e read_event
    else ok (ok_status, w)

-- `spy_send_lowat`; whether setsockopt succeeds is a parameter
unfoldable pub send_lowat : (Option ℕ → ℕ → Bool) → World → ℕ → ℕ → Status × World
send_lowat set w c lowat =
    let v = w.connections c in
    if lowat == 0 || v.sndlowat
    then (ok_status, w)
    else if not (set v.fd lowat)
    then (error_status, w)
    else (ok_status, set_connection w c (record v { sndlowat = true }))

-- the second half of `spy_handle_write_event`
unfoldable pub rewatch_write : World → ℕ → Run (Status × World)
rewatch_write w e =
    let v = w.events e in
    if not v.active && not v.ready
    then add_event w e write_event
    else if v.active && v.ready
    then del_event w e write_event
    else ok (ok_status, w)

-- `spy_handle_write_event`
unfoldable pub handle_write_event : (Option ℕ → ℕ → Bool) → World → ℕ → ℕ → Run (Status × World)
unfolding send_lowat rewatch_write
handle_write_event set w e lowat =
    let lowered = owner w e >>= λ c.
    let r = send_lowat set w c lowat in
    elim (r.0) [ error_status ↦ ok (error_status, w) | ok_status ↦ rewatch_write r.1 e ] in
    if lowat == 0 then rewatch_write w e else lowered

-- the first loop of `spy_event_init`, from the last connection on, which makes no difference
pub close_events : World → ℕ → World
close_events w zero = w
close_events w (suc i) = close_events (mark_closed (mark_closed w (2 * i)) (2 * i + 1)) i

-- the body of its second loop
abbrev pub link_connection : World → ℕ → Option ℕ → World
link_connection w i next =
    set_connection w i
      (record (w.connections i) { data_of = next; read = 2 * i; write = 2 * i + 1; fd = none })

-- its second loop, over the connections below `i`, with the first free connection at the end
pub link_connections : World → ℕ → Option ℕ → World
link_connections w zero next = record w { free_connections = next }
link_connections w (suc i) next = link_connections (link_connection w i next) i (some i)

-- `spy_event_init` up to the connections of the listening sockets, with `connection_n` connections.
-- Without any the second loop, which tests its counter behind the body, leaves the array.
pub set_up : World → ℕ → Run World
unfolding close_events link_connections
set_up w zero = fault
set_up w (suc n) =
    let linked = link_connections (close_events w (suc n)) (suc n) none in
    ok (record linked { free_connection_n = suc n })

unfoldable pub init_connections : World → Run World
unfolding set_up
init_connections w = set_up w w.connection_n
