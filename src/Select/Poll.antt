-- ===== src/Select/Poll.antt =====
-- The rest of event/module/spy_event_select.c: setting the module up, and one round of select(), which
-- posts the events whose descriptors are ready.
pub mod Same
pub mod Scan
pub mod Bound
pub mod Round
use mysqlproxy.Base.{
  ℕ, zero, suc, ◌+◌, ◌-◌, ◌*◌, ◌/◌, ◌%◌, Bool, true, false, not, ◌&&◌, Option, none, some, update,
  ltb, ◌==◌, if◌then◌else◌,
}
use mysqlproxy.Base.Runs.{Run, ok, fault, ◌>>=◌}
use mysqlproxy.State.{
  Status, ok_status, error_status, Queue, accepts, others, Event, Connection, Select, Tm, World,
  word, set_event, owner, event_fd,
}
use mysqlproxy.Times.{TimeVal, time_update}
use mysqlproxy.Posted.{post_event}

-- SPY_TIMER_INFINITE
abbrev pub infinite : ℕ
infinite = word - 1

-- what select() answers: an error number, or how many descriptors of which sets are ready
pub data Answer : Type 0 where
  failed : ℕ → Answer
  ready : ℕ → (ℕ → Bool) → (ℕ → Bool) → Answer

-- `a < b` on descriptors
abbrev pub less_fd : Option ℕ → Option ℕ → Bool
less_fd none none = false
less_fd none (some b) = true
less_fd (some a) none = false
less_fd (some a) (some b) = ltb a b

-- the greatest descriptor of the next `k` events of `event_index`, from `i` on
pub find_max : World → ℕ → ℕ → Option ℕ → Run (Option ℕ)
find_max w zero i m = ok m
find_max w (suc k) i m = owner w (w.select.event_index i) >>= λ c.
    let fd = (w.connections c).fd in find_max w k (suc i) (if less_fd m fd then fd else m)

-- `max_fd`, found anew where it is -1
pub max_of : World → Run (Option ℕ)
unfolding find_max
max_of w = elim w.select.max_fd [ some m ↦ ok (some m) | none ↦ find_max w w.select.nevents 0 none ]

-- `max_fd + 1`
abbrev pub nfds : Option ℕ → ℕ
nfds none = 0
nfds (some m) = m + 1

-- the `struct timeval` of a finite timer, in seconds and microseconds
abbrev pub timeout : ℕ → Option (ℕ × ℕ)
timeout timer = if timer == infinite then none else some (timer / 1000, timer % 1000 * 1000)

-- FD_ISSET on the work set that the event belongs to
abbrev pub is_set : World → ℕ → ℕ → Bool
is_set w e f = if (w.events e).write then w.select.work_write f else w.select.work_read f

abbrev pub queue_of : Event → Queue
queue_of v = if v.accept then accepts else others

abbrev pub make_ready : World → ℕ → World
make_ready w e = set_event w e (record (w.events e) { ready = true })

-- the body of the loop over `event_index`
pub visit : World → ℕ → ℕ → World
visit w e f = if is_set w e f then post_event (make_ready w e) e (queue_of (w.events e)) else w

-- the loop, over the next `k` places from `i` on; it counts the events that are ready
pub scan : World → ℕ → ℕ → ℕ → Run (World × ℕ)
unfolding visit
scan w zero i n = ok (w, n)
scan w (suc k) i n =
    let e = w.select.event_index i in
    event_fd w e >>= λ f. scan (visit w e f) k (suc i) (if is_set w e f then n + 1 else n)

-- the sets lose the descriptors from `s` to `s + k - 1` that `getsockopt` refuses
pub clear_invalid : (ℕ → Bool) → ℕ → ℕ → (ℕ → Bool) → ℕ → Bool
clear_invalid valid zero s set = set
clear_invalid valid (suc k) s set =
    clear_invalid valid k (suc s) (if set s && not (valid s) then update set s false else set)

-- `spy_select_repair_fd_sets`
unfoldable pub repair : (ℕ → Bool) → World → World
unfolding clear_invalid
repair valid w =
    let s = w.select in
    let k = nfds s.max_fd in
    record w {
      select = record s {
        master_read = clear_invalid valid k 0 s.master_read;
        master_write = clear_invalid valid k 0 s.master_write;
        max_fd = none;
      };
    }

-- EBADF
abbrev pub bad_descriptor : ℕ
bad_descriptor = 9

-- `spy_select_process_events`. The answer of select(), the descriptors that `getsockopt` accepts and
-- the time are parameters.
module _ (select_call : ℕ → (ℕ → Bool) → (ℕ → Bool) → Option (ℕ × ℕ) → Answer) (valid : ℕ → Bool)
    (localtime : ℕ → Tm) (now : TimeVal) where
  -- after the call: the sets are the answer's, and the time is brought up to date
  abbrev pub called : World → (ℕ → Bool) → (ℕ → Bool) → World
  called w r s = record w {
    select = record (w.select) { work_read = r; work_write = s };
    times = time_update localtime now w.times;
  }

  pub finish : ℕ → ℕ → World → Run (Status × World)
  unfolding scan repair
  finish timer n w =
      if n == 0
      then ok (if timer == infinite then error_status else ok_status, w)
      else scan w w.select.nevents 0 0 >>= λ r.
          ok (ok_status, if n == r.1 then r.0 else repair valid r.0)

  unfoldable pub process_events : World → ℕ → Run (Status × World)
  unfolding max_of finish repair
  process_events w timer = max_of w >>= λ m.
      let s = record (w.select) { max_fd = m } in
      let w' = record w { select = s } in
      elim (select_call (nfds m) s.master_read s.master_write (timeout timer)) [
        | failed err ↦
            let w'' = called w' s.master_read s.master_write in
            ok (error_status, if err == bad_descriptor then repair valid w'' else w'')
        | ready n r t ↦ finish timer n (called w' r t)
      ]
