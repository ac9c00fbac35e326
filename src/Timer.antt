-- ===== src/Timer.antt =====
-- event/spy_event_timer.c and event/spy_event_timer.h: the timers of events, in the heap of
-- core/spy_minheap.c. The timer node of an event has the event's number.
pub mod Valid
pub mod Expire
pub mod Find
mod Tests
use mysqlproxy.Base.{
  not, ◌||◌, ℕ, zero, suc, ◌+◌, ◌-◌, ◌*◌, ◌^◌, ◌%◌, Bool, true, false, ◌&&◌, Option, none, some,
  update, ltb, ◌==◌, if◌then◌else◌,
}
use mysqlproxy.Base.Runs.{Run, ok, fault, out_of_fuel, ◌>>=◌}
use mysqlproxy.Minheap.{Node, Heap, init, min, insert, delete}
use mysqlproxy.State.{Event, World, word, set_event}
use mysqlproxy.Select.Poll.{infinite}

-- SPY_TIMER_LAZY_DELAY
abbrev pub lazy_delay : ℕ
lazy_delay = 300

-- `(spy_msec_int_t) a - (spy_msec_int_t) b`, as the word that represents it: values from 2 ^ 63 on
-- are negative
abbrev pub difference : ℕ → ℕ → ℕ
difference a b = (a + (word - b % word)) % word

abbrev pub is_negative : ℕ → Bool
is_negative d = not (ltb d (2 ^ 63))

-- `spy_abs`
abbrev pub magnitude : ℕ → ℕ
magnitude d = if is_negative d then word - d else d

-- `spy_event_timer_init`
abbrev pub timer_init : World → World
timer_init w = record w { timers = init w.timers (w.connection_n * 2) }

-- `timer > 0 ? timer : 0`
abbrev pub at_least_zero : ℕ → ℕ
at_least_zero d = if is_negative d then 0 else d

-- `spy_event_find_timer`
unfoldable pub find_timer : World → Run ℕ
find_timer w = min w.timers >>= elim [
  | none ↦ ok infinite
  | some x ↦ ok (at_least_zero (difference (w.timers.nodes x).key w.times.current_msec))
]

-- `node->key - spy_current_msec <= 0`
abbrev pub is_due : World → ℕ → Bool
is_due w x =
    let d = difference (w.timers.nodes x).key w.times.current_msec in d == 0 || is_negative d

-- the timer of event `e` has run out, and the heap is now `h`
abbrev pub timed_out : World → ℕ → Heap → World
timed_out w e h =
    set_event (record w { timers = h }) e
      (record (w.events e) { timer_set = false; timedout = true })

-- `spy_event_expire_timers`, with the handlers as a parameter
unfoldable pub expire_timers : (ℕ → World → Run World) → ℕ → World → Run World
expire_timers handle zero w = out_of_fuel
expire_timers handle (suc k) w =
    let run = λ (e : ℕ). delete w.timers (w.timers.nodes e).index >>= λ r.
    handle e (timed_out w e r.1) >>= λ w'. expire_timers handle k w' in
    min w.timers >>= elim [ none ↦ ok w | some e ↦ if is_due w e then run e else ok w ]

-- `spy_event_del_timer`
unfoldable pub del_timer : World → ℕ → Run World
del_timer w e = delete w.timers (w.timers.nodes e).index >>= λ r.
    ok (set_event (record w { timers = r.1 }) e (record (w.events e) { timer_set = false }))

-- `ev->timer.key = key`
abbrev pub with_key : Heap → ℕ → ℕ → Heap
with_key h e key = record h { nodes = update h.nodes e (record (h.nodes e) { key = key }) }

-- the end of `spy_event_add_timer`, whatever `spy_minheap_insert` answers
abbrev pub start_timer : World → ℕ → ℕ → Run World
start_timer w e key =
    let h = with_key w.timers e key in
    insert h e h.last >>= λ r.
    ok (set_event (record w { timers = r.1 }) e (record (w.events e) { timer_set = true }))

-- `spy_event_add_timer`: a timer that is set stays if the new time is close to the old one
unfoldable pub add_timer : World → ℕ → ℕ → Run World
unfolding del_timer
add_timer w e timer =
    let key = (w.times.current_msec + timer) % word in
    let close = ltb (magnitude (difference key (w.timers.nodes e).key)) lazy_delay in
    let again = del_timer w e >>= λ w'. start_timer w' e key in
    if (w.events e).timer_set && close
    then ok w
    else if (w.events e).timer_set
    then again
    else start_timer w e key
