-- ===== src/Timer/Expire.antt =====
-- `spy_event_expire_timers`: the loop over the timers that have run out.
use mysqlproxy.Base.{ℕ, suc, ◌≡◌, refl}
use mysqlproxy.Base.Runs.{Run, ok}
use mysqlproxy.Minheap.Leaf.{min-none}
use mysqlproxy.State.{World}
use mysqlproxy.Timer.{expire_timers}

-- the heap at the end has no node
pub finished :
    (handle : ℕ → World → Run World) (k : ℕ) (w : World)
    → w.timers.last ≡ 0
    → expire_timers handle (suc k) w ≡ ok w
unfolding expire_timers
finished handle k w none_left = rw (expire_timers, min-none w.timers none_left) refl
