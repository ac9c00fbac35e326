-- ===== src/Turn/Tests.antt =====
-- A turn in which the watched event of descriptor 5 is ready.
use mysqlproxy.Base.{subst, ◌≡◌, refl, true, false, inr, ◌==◌}
use mysqlproxy.Base.Runs.{ok, ok-inj}
use mysqlproxy.State.Samples.{watching_world, tm_zero}
use mysqlproxy.Minheap.{min}
use mysqlproxy.Times.{time_update}
use mysqlproxy.Timer.{find_timer}
use mysqlproxy.Select.Poll.{ready}
use mysqlproxy.Select.Tests.{sample-IsWatching, none_queued, no-IsPosted}
use mysqlproxy.Turn.{Outside}
use mysqlproxy.Turn.Quiet.{AreQuiet, IsQuiet}
use mysqlproxy.Turn.Turned.{Turned, turn-Turned}

abbrev readable : Outside
readable = record {
  select_call = λ k a b c. ready 1 (λ f. f == 5) (λ f. false);
  valid = λ f. true;
  localtime = λ s. tm_zero;
  now = record { sec = 0; usec = 100000 };
  handle = λ e v. ok v;
}

readable-AreQuiet : AreQuiet readable.handle
readable-AreQuiet e v v' h =
    subst (IsQuiet v) (ok-inj h)
      (record { links = λ a. (refl, refl); heads = λ q. refl; timers = refl })

find_run : find_timer watching_world ≡ ok 0
unfolding find_timer min
find_run = refl

clock_run :
    (time_update readable.localtime readable.now watching_world.times).current_msec
    ≡ watching_world.times.current_msec
unfolding time_update
clock_run = refl

turn-Turned_example : Turned readable watching_world none_queued 1 (λ f. f == 5) (λ f. false)
turn-Turned_example =
    turn-Turned readable 0 0 (λ f. f == 5) (λ f. false) readable-AreQuiet (λ k a b c. refl) find_run
      (inr clock_run) sample-IsWatching no-IsPosted
