-- ===== src/Timer/Tests.antt =====
-- The theorems on timers at a heap of two of them.
use mysqlproxy.State.{World}
use mysqlproxy.State.Samples.{timed_world}
use mysqlproxy.Minheap.Leaf.{cut}
use mysqlproxy.Timer.{timed_out}

abbrev once : World
once = timed_out timed_world 6 (cut timed_world.timers 1 1)

abbrev twice : World → World
twice v = timed_out v 6 (cut v.timers 0 1)
