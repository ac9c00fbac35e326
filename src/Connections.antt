-- ===== src/Connections.antt =====
-- core/spy_connection.c: the connections and the list of the free ones, which runs through `data`.
pub mod Free
pub mod Close
pub mod Reuse
pub mod Tests
use mysqlproxy.Base.{ℕ, Bool, true, false, Option, none, some, update, if◌then◌else◌}
use mysqlproxy.Base.Runs.{Run, ok, ◌>>=◌}
use mysqlproxy.Minheap.{Heap}
use mysqlproxy.State.{
  Event, Connection, World, invalid_index, zero_event, set_event, set_connection, dec_word,
  inc_word,
}
use mysqlproxy.Select.{Kind, read_event, write_event, del_event}

-- `spy_free_connection`
abbrev pub free_connection : World → ℕ → World
free_connection w c =
    record (set_connection w c (record (w.connections c) { data_of = w.free_connections })) {
      free_connections = some c;
      free_connection_n = inc_word w.free_connection_n;
    }

-- `spy_memzero` on an event, with the timer node that lies inside it
abbrev pub clear_event : World → ℕ → World
clear_event w e = record (set_event w e zero_event) {
  timers = record (w.timers) { nodes = update w.timers.nodes e (record { key = 0; index = 0 }) };
}

-- an event of connection `c` as `spy_get_connection` leaves it
abbrev pub new_event : ℕ → Bool → Event
new_event c write = record zero_event { index = invalid_index; data_of = some c; write = write }

-- a connection as `spy_get_connection` leaves it, which keeps its two events
abbrev pub new_connection : Connection → Option ℕ → Connection
new_connection c s = record {
  data_of = none;
  read = c.read;
  write = c.write;
  fd = s;
  sent = 0;
  listening = none;
  pool = none;
  sndlowat = false;
  error = false;
}

-- the free connection `c` is taken for the descriptor `s`
abbrev pub taken : World → ℕ → Option ℕ → World
taken w c s =
    let old = w.connections c in
    let listed = record w {
      free_connections = old.data_of;
      free_connection_n = dec_word w.free_connection_n;
    } in
    let fresh = set_connection listed c (new_connection old s) in
    let cleared = clear_event (clear_event fresh old.read) old.write in
    set_event (set_event cleared old.read (new_event c false)) old.write (new_event c true)

-- `spy_get_connection`
unfoldable pub get_connection : World → Option ℕ → Option ℕ × World
get_connection w s = elim w.free_connections [ none ↦ (none, w) | some c ↦ (some c, taken w c s) ]

-- `if (ev->active) spy_del_event(ev, kind)`, whose answer nothing looks at
unfoldable pub unwatch : World → ℕ → Kind → Run World
unwatch w e kind =
    let removed = del_event w e kind >>= λ r. ok r.1 in
    if (w.events e).active then removed else ok w

-- `ev->closed = 1`
abbrev pub mark_closed : World → ℕ → World
mark_closed w e = set_event w e (record (w.events e) { closed = true })

-- `c->fd = -1`
abbrev pub without_fd : World → ℕ → World
without_fd w c = set_connection w c (record (w.connections c) { fd = none })

-- `spy_close_connection` on an open connection, with the descriptor that it closes
pub closing : World → ℕ → Run (Option ℕ × World)
unfolding unwatch
closing w c =
    let v = w.connections c in
    do
      a ← unwatch w v.read read_event
      b ← unwatch a v.write write_event
      ok (v.fd, without_fd (free_connection (mark_closed (mark_closed b v.read) v.write) c) c)

-- `spy_close_connection`: a connection that is closed already stays as it is
unfoldable pub close_connection : World → ℕ → Run (Option ℕ × World)
unfolding closing
close_connection w c = elim (w.connections c).fd [ none ↦ ok (none, w) | some f ↦ closing w c ]
