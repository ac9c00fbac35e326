-- ===== src/Timer/Valid.antt =====
-- The timers that are set are those in the heap; setting and removing one.
use mysqlproxy.Base.{◌-◌, ◌≢◌, ℕ, ◌<◌, ◌≡◌, ◌↔◌, true, false, arith}
use mysqlproxy.Base.Runs.{Returns, returns, Returns-then}
use mysqlproxy.Minheap
use mysqlproxy.Minheap.{Heap, key, index}
use mysqlproxy.Minheap.Order.{Live, IsPlaced}
use mysqlproxy.Minheap.Delete.{Removed, delete-Removed}
use mysqlproxy.State.{World, set_event}
use mysqlproxy.Timer.{magnitude, difference, lazy_delay, del_timer}

-- the events with a timer are those whose nodes are in the heap, and every node knows its place
pub record IsTimed (w : World) : Type 0 where
  pub placing : IsPlaced w.timers
  pub in_heap : (e : ℕ) → ((w.events e).timer_set ≡ true) ↔ Live w.timers e

-- what removing the timer of `e` leaves
pub record Stopped (w : World) (e : ℕ) (w' : World) : Type 0 where
  pub timed : IsTimed w'
  pub unset : (w'.events e).timer_set ≡ false
  pub others : (y : ℕ) → y ≢ e → (w'.events y).timer_set ≡ (w.events y).timer_set
  pub same_keys : (y : ℕ) → key w'.timers y ≡ key w.timers y
  pub one_less : w'.timers.last ≡ w.timers.last - 1
  pub same_max : w'.timers.max_num ≡ w.timers.max_num
  pub same_capacity : w'.timers.capacity ≡ w.timers.capacity

module _ {w : World} {e : ℕ} (v : IsTimed w) (here : Live w.timers e) (r : Minheap.Status × Heap)
    (h : Removed w.timers (index w.timers e) r) where
  stopped :
      Stopped w e
        (set_event (record w { timers = r.1 }) e (record (w.events e) { timer_set = false }))
  stopped = record {
    timed = record {
      placing = record {
        indexed = h.indexed;
        fits = ground (arith, h.one_less, h.same_capacity, v.placing.fits);
        bounded = ground (arith, h.one_less, h.same_max, v.placing.bounded);
      };
      in_heap = λ y. (
        λ t. (h.members y).1 ((v.in_heap y).0 (ground arith), ground (arith, here.1)),
        λ t. ground (arith, (h.members y).0 t, (v.in_heap y).1, here.1),
      );
    };
    unset = ground arith;
    others = λ y t. ground arith;
    same_keys = h.same_keys;
    one_less = h.one_less;
    same_max = h.same_max;
    same_capacity = h.same_capacity;
  }

-- Removing the timer of an event that has one takes exactly this timer out of the heap; no key
-- changes.
pub del_timer-Stopped :
    {w : World} (e : ℕ)
    → IsTimed w
    → (w.events e).timer_set ≡ true
    → Returns (Stopped w e) (del_timer w e)
unfolding del_timer
del_timer-Stopped {w} e v set =
    let here = (v.in_heap e).0 set in
    Returns-then (delete-Removed v.placing here.0) (λ r h. returns (stopped v here r h))

-- what setting the timer of `e` to `new` leaves
pub record Started (w : World) (e new : ℕ) (w' : World) : Type 0 where
  pub timed : IsTimed w'
  pub set : (w'.events e).timer_set ≡ true
  pub others : (y : ℕ) → y ≢ e → (w'.events y).timer_set ≡ (w.events y).timer_set
  pub new_key : key w'.timers e ≡ new
  pub other_keys : (y : ℕ) → y ≢ e → key w'.timers y ≡ key w.timers y

-- the timer keeps its old time, which the new one is close to
abbrev pub Lazy : World → ℕ → ℕ → World → Type 0
Lazy w e new w' =
    ((w.events e).timer_set ≡ true)
    × (magnitude (difference new (key w.timers e)) < lazy_delay)
    × (w' ≡ w)
