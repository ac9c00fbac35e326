-- ===== src/Listening.antt =====
-- core/spy_connection.c: opening and closing the listening sockets.
pub mod Open
mod Tests
use mysqlproxy.Base.{
  not, ℕ, zero, suc, ◌+◌, ◌-◌, Bool, true, false, Option, none, some, update, if◌then◌else◌,
}
use mysqlproxy.Base.Runs.{Run, ok, ◌>>=◌}
use mysqlproxy.State.{Status, ok_status, error_status, World}
use mysqlproxy.Select.{read_event}
use mysqlproxy.Connections.{unwatch, free_connection, without_fd}

-- `spy_listening_s`, less the fields that only the calls of the system look at
pub record Entry : Type 0 where
  pub fd : Option ℕ
  pub listen : Bool
  pub connection : Option ℕ

-- what bind() answers
pub data Bound : Type 0 where
  bound in_use refused : Bound

-- The system's answers, for the tries left and the number of the entry: a new socket, and whether
-- setsockopt, the non-blocking mode, bind() and listen() succeed.
pub record Calls : Type 0 where
  pub socket : ℕ → ℕ → Option ℕ
  pub reuse : ℕ → ℕ → Bool
  pub nonblocking : ℕ → ℕ → Bool
  pub bind : ℕ → ℕ → Bound
  pub listen : ℕ → ℕ → Bool

-- the entries, and the sockets that the function has opened and not closed
pub record Sockets : Type 0 where
  pub entries : ℕ → Entry
  pub opened : ℕ → Bool

-- the value of `failed`, or the end of the function
pub data Pass : Type 0 where
  passed : Bool → Pass
  stopped : Pass

abbrev pub with_socket : Sockets → ℕ → Sockets
with_socket l s = record l { opened = update l.opened s true }

abbrev pub listening : Sockets → ℕ → ℕ → Sockets
listening l i s = record (with_socket l s) {
  entries = update l.entries i (record (l.entries i) { fd = some s; listen = true });
}

-- The loop's body for an entry without a socket. On EADDRINUSE it goes on to the next entry and the
-- socket stays open; every other failure closes the socket and ends the function. `failed` is never
-- set, since the branch that sets it is behind the test for EADDRINUSE.
abbrev pub open_one : Calls → ℕ → ℕ → Bool → Sockets → Pass × Sockets
open_one c tries i failed l = elim (c.socket tries i) [
  | none ↦ (stopped, l)
  | some s ↦
      if not (c.reuse tries i)
      then (stopped, l)
      else if not (c.nonblocking tries i)
      then (stopped, l)
      else elim (c.bind tries i) [
        | in_use ↦ (passed failed, with_socket l s)
        | refused ↦ (stopped, l)
        | bound ↦ if c.listen tries i then (passed failed, listening l i s) else (stopped, l)
      ]
]

-- the loop over the next `k` entries, from `i` on
pub open_pass : Calls → ℕ → ℕ → ℕ → Bool → Sockets → Pass × Sockets
open_pass c tries zero i failed l = (passed failed, l)
open_pass c tries (suc k) i failed l =
    let go = λ (r : Pass × Sockets). elim (r.0) as (λ _. Pass × Sockets) [
      | stopped ↦ r
      | passed f ↦ open_pass c tries k (suc i) f r.1
    ] in
    elim (l.entries i).fd [
      | some s ↦ go (passed failed, l)
      | none ↦ go (open_one c tries i failed l)
    ]

-- the loop over the tries that are left
pub open_tries : Calls → ℕ → ℕ → Sockets → Status × Sockets
unfolding open_pass
open_tries c n zero l = (error_status, l)
open_tries c n (suc k) l =
    let r = open_pass c (suc k) n 0 false l in
    elim (r.0) as (λ _. Status × Sockets) [
      | stopped ↦ (error_status, r.1)
      | passed failed ↦ if failed then open_tries c n k r.1 else (ok_status, r.1)
    ]

-- `spy_open_listening_sockets`, for `n` entries
unfoldable pub open_sockets : Calls → ℕ → Sockets → Status × Sockets
unfolding open_tries
open_sockets c n l = open_tries c n 5 l

-- the loop of `spy_close_listening_sockets`, over the next `k` entries from `i` on; the descriptors
-- are closed by the system
unfoldable pub close_sockets : ℕ → ℕ → (ℕ → Entry) → World → Run ((ℕ → Entry) × World)
close_sockets zero i es w = ok (es, w)
close_sockets (suc k) i es w =
    let es' = update es i (record (es i) { fd = none }) in
    let detach = λ (c : ℕ). do
      a ← unwatch w (w.connections c).read read_event
      close_sockets k (suc i) es' (without_fd (free_connection a c) c)
    in elim (es i).connection [ none ↦ close_sockets k (suc i) es' w | some c ↦ detach c ]
