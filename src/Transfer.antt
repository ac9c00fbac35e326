-- ===== src/Transfer.antt =====
-- os/unix/spy_send.c and os/unix/spy_recv.c: sending and receiving on a connection.
pub mod Done
mod Tests
use mysqlproxy.Base.{ℕ, zero, suc, ◌+◌, Bool, true, false, ◌&&◌, ◌||◌, ltb, ◌==◌, if◌then◌else◌}
use mysqlproxy.Base.Runs.{Run, ok, out_of_fuel}
use mysqlproxy.State.{Event, Connection, World, set_event, set_connection}

-- what send() and recv() answer: a number of bytes, or -1 with EAGAIN, EINTR or another error
pub data Answer : Type 0 where
  moved : ℕ → Answer
  again interrupted broken : Answer

-- what the functions return: a number of bytes, SPY_AGAIN or SPY_ERROR
pub data Outcome : Type 0 where
  bytes : ℕ → Outcome
  try_again failed : Outcome

-- `ev->ready = 0`
abbrev pub not_ready : World → ℕ → World
not_ready w e = set_event w e (record (w.events e) { ready = false })

-- `ev->error = 1`
abbrev pub with_error : World → ℕ → World
with_error w e = set_event w e (record (w.events e) { error = true })

-- `c->sent += n`
abbrev pub count_sent : World → ℕ → ℕ → World
count_sent w c n =
    set_connection w c (record (w.connections c) { sent = (w.connections c).sent + n })

-- the body of the loop of `spy_unix_send`, with `next` for the other rounds
abbrev pub send_body :
    (World → Run (Outcome × World)) → Answer → World → ℕ → ℕ → Run (Outcome × World)
send_body next (moved n) w c size =
    let e = (w.connections c).write in
    if n == 0
    then ok (bytes 0, not_ready w e)
    else ok (bytes n, count_sent (if ltb n size then not_ready w e else w) c n)
send_body next again w c size = ok (try_again, not_ready w (w.connections c).write)
send_body next interrupted w c size = next (not_ready w (w.connections c).write)
send_body next broken w c size = ok (failed, with_error w (w.connections c).write)

-- `spy_unix_send`, where `answers i` is the system's answer to call `i`
unfoldable pub unix_send : (ℕ → Answer) → ℕ → ℕ → World → ℕ → ℕ → Run (Outcome × World)
unix_send answers zero i w c size = out_of_fuel
unix_send answers (suc k) i w c size =
    send_body (λ w'. unix_send answers k (suc i) w' c size) (answers i) w c size

-- the body of the loop of `spy_unix_recv`, with what follows the loop
abbrev pub recv_body :
    (World → Run (Outcome × World)) → Answer → World → ℕ → ℕ → Run (Outcome × World)
recv_body next (moved n) w c size =
    let e = (w.connections c).read in
    let ended = set_event w e (record (w.events e) { ready = false; eof = true }) in
    if n == 0 then ok (bytes 0, ended) else ok (bytes n, if ltb n size then not_ready w e else w)
recv_body next again w c size = ok (try_again, not_ready w (w.connections c).read)
recv_body next interrupted w c size = next w
recv_body next broken w c size =
    let e = (w.connections c).read in ok (failed, with_error (not_ready w e) e)

-- `spy_unix_recv`
unfoldable pub unix_recv : (ℕ → Answer) → ℕ → ℕ → World → ℕ → ℕ → Run (Outcome × World)
unix_recv answers zero i w c size = out_of_fuel
unix_recv answers (suc k) i w c size =
    recv_body (λ w'. unix_recv answers k (suc i) w' c size) (answers i) w c size
