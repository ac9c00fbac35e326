-- ===== src/Accept.antt =====
-- event/spy_event_accept.c: accepting connections on a listening socket.
pub mod Taken
mod Tests
use mysqlproxy.Base.{
  ℕ, Bool, true, false, not, ◌&&◌, Option, none, some, List, [], ◌∷◌, if◌then◌else◌,
}
use mysqlproxy.Base.Runs.{Run, ok, out_of_fuel, ◌>>=◌}
use mysqlproxy.State.{World, set_event, set_connection}
use mysqlproxy.Connections.{free_connection, without_fd, get_connection}

-- what accept() answers: a socket, EAGAIN, ECONNABORTED or another error
pub data Answer : Type 0 where
  socket : ℕ → Answer
  again aborted refused : Answer

-- What the function meets besides accept(): the pool it creates, whether the pool has memory for the
-- address, whether the address is to be printed, whether there is memory for the text, and whether the
-- text is not empty; and the handler of the listening socket.
pub record Outside : Type 0 where
  pub pool : Option ℕ
  pub has_sockaddr : Bool
  pub addr_ntop : Bool
  pub has_text : Bool
  pub printed : Bool
  pub handler : ℕ → World → Run World

-- `spy_close_accepted_connection`, less the close() of the descriptor
abbrev pub close_accepted : World → ℕ → World
close_accepted w c = without_fd (free_connection w c) c

-- the connection gets its pool
abbrev pub with_pool : World → ℕ → Option ℕ → World
with_pool w c p = set_connection w c (record (w.connections c) { pool = p })

-- `c->listening = ls; wev->ready = 1;`
abbrev pub prepared : World → ℕ → Option ℕ → World
prepared w c ls =
    let w' = set_connection w c (record (w.connections c) { listening = ls }) in
    set_event w' (w.connections c).write
      (record (w.events (w.connections c).write) { ready = true })

-- `ev->available = 0`
abbrev pub exhausted : World → ℕ → World
exhausted w ev = set_event w ev (record (w.events ev) { available = false })

-- The loop's body from the connection `c` on, for the socket `s`: the world, and the sockets that have
-- been closed. The loop ends behind it, since `ev->available` is 0.
abbrev pub set_up : Outside → World → ℕ → Option ℕ → ℕ → ℕ → Run (World × List ℕ)
set_up o w ev ls c s =
    let undone = λ (v : World). ok (close_accepted v c, s ∷ []) in
    let pooled = with_pool w c o.pool in
    let ready = prepared pooled c ls in
    elim o.pool [
      | none ↦ undone w
      | some p ↦
          if not o.has_sockaddr
          then undone pooled
          else if o.addr_ntop && not o.has_text
          then undone ready
          else if o.addr_ntop && not o.printed
          then undone ready
          else o.handler c ready >>= (λ v. ok (exhausted v ev, []))
    ]

-- `spy_event_accept` for the event `ev` of the listening connection with the entry `ls`; the list has
-- the answers of accept(), one for each round
unfoldable pub accept : Outside → ℕ → Option ℕ → List Answer → World → Run (World × List ℕ)
accept o ev ls [] w = out_of_fuel
accept o ev ls (again ∷ as') w = ok (w, [])
accept o ev ls (refused ∷ as') w = ok (w, [])
accept o ev ls (aborted ∷ as') w =
    let next = accept o ev ls as' w in if (w.events ev).available then next else ok (w, [])
accept o ev ls (socket s ∷ as') w =
    let r = get_connection w (some s) in
    elim (r.0) as (λ _. Run (World × List ℕ)) [
      | none ↦ ok (r.1, s ∷ [])
      | some c ↦ set_up o r.1 ev ls c s
    ]
