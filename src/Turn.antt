-- ===== src/Turn.antt =====
-- event/spy_event.c: `spy_process_events_and_timers`, one turn of the event loop.
pub mod Quiet
pub mod Turned
mod Tests
use mysqlproxy.Base.{ℕ, Bool, Option, none, some, ◌==◌, if◌then◌else◌}
use mysqlproxy.Base.Runs.{Run, ok, ◌>>=◌}
use mysqlproxy.State.{Queue, accepts, others, head_of, Tm, World}
use mysqlproxy.Times.{TimeVal}
use mysqlproxy.Posted.{read_link, process_posted}
use mysqlproxy.Select.Poll.{Answer, process_events}
use mysqlproxy.Timer.{difference, find_timer, expire_timers}

-- what surrounds the turn: select(), `getsockopt`, `localtime`, the time, and the handlers of events
pub record Outside : Type 0 where
  pub select_call : ℕ → (ℕ → Bool) → (ℕ → Bool) → Option (ℕ × ℕ) → Answer
  pub valid : ℕ → Bool
  pub localtime : ℕ → Tm
  pub now : TimeVal
  pub handle : ℕ → World → Run World

-- `if (spy_posted_accept_events) spy_event_process_posted(…)`, and the same of the other queue
unfoldable pub run_queue : Outside → ℕ → Queue → World → Run World
run_queue o k q w = elim (read_link w (head_of q)) [
  | none ↦ ok w
  | some e ↦ process_posted o.handle k q w
]

-- `if (delta) spy_event_expire_timers();`
unfoldable pub run_timers : Outside → ℕ → ℕ → World → Run World
run_timers o k delta w = if delta == 0 then ok w else expire_timers o.handle k w

-- `spy_process_events_and_timers`, on fuel for the queues and the timers
unfoldable pub turn : Outside → ℕ → World → Run World
unfolding run_queue run_timers
turn o k w = find_timer w >>= λ timer.
    process_events o.select_call o.valid o.localtime o.now w timer >>= λ r.
    let delta = difference (r.1).times.current_msec w.times.current_msec in
    run_queue o k accepts r.1 >>= λ a. run_timers o k delta a >>= λ b. run_queue o k others b
