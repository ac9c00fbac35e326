-- ===== src/Timer/Find.antt =====
-- `spy_event_find_timer`: how long select() may wait.
use mysqlproxy.Base.{ℕ, ◌-◌, ◌^◌, ◌≤◌, ◌<◌, ◌≡◌, arith}
use mysqlproxy.Base.Runs.{Returns, returns}
use mysqlproxy.Minheap.{key}
use mysqlproxy.Minheap.Leaf.{min-second}
use mysqlproxy.Minheap.Order.{IsValid}
use mysqlproxy.State.{World}
use mysqlproxy.Timer.{difference, at_least_zero, find_timer}

remaining : (k now : ℕ) → k < 2 ^ 63 → now < 2 ^ 63 → at_least_zero (difference k now) ≡ k - now
remaining k now p q = ground arith

-- With two timers or more, `spy_event_find_timer` gives the time that is left for the one at position
-- 1 of the heap, or 0 if that is past. In a heap that is in order this is never less than the time
-- left for the first timer, which is at position 0: the loop wakes up late by the difference. Keys
-- and the time are taken to be less than 2 ^ 63.
pub find_timer-late :
    (w : World)
    → IsValid w.timers
    → 2 ≤ w.timers.last
    → key w.timers (w.timers.slots 1) < 2 ^ 63
    → w.times.current_msec < 2 ^ 63
    → Returns
        (λ t.
          (t ≡ key w.timers (w.timers.slots 1) - w.times.current_msec)
          × (key w.timers (w.timers.slots 0) - w.times.current_msec ≤ t))
        (find_timer w)
unfolding find_timer
find_timer-late w v two small now =
    let in_order : key w.timers (w.timers.slots 0) ≤ key w.timers (w.timers.slots 1) =
      v.ordered 1 (omega arith) two in
    let left = remaining (key w.timers (w.timers.slots 1)) w.times.current_msec small now in
    rw (min-second w.timers (omega arith) (omega (arith, v.placing.fits)))
      (returns (left, omega (arith, left, in_order)))
