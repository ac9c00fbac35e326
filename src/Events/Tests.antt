-- ===== src/Events/Tests.antt =====
-- The theorems on event/spy_event.c at an open connection whose events are not watched.
use mysqlproxy.Base.{◌≡◌, ◌⊎◌, refl, true, false, arith}
use mysqlproxy.Base.Runs.{Returns}
use mysqlproxy.State.{error_status}
use mysqlproxy.State.Samples.{open_world}
use mysqlproxy.Select.Tests.{open-IsWatching}
use mysqlproxy.Events.{closes, handle_read_event, handle_write_event, init_connections}
use mysqlproxy.Events.Handle.{CanWatch, Handled, handle_read_event-Handled}
use mysqlproxy.Events.Write.{handle_write_event-Handled}
use mysqlproxy.Events.Init.{Initial, init_connections-Initial}

read-CanWatch : CanWatch open_world 0 5
read-CanWatch = record {
  watching = open-IsWatching;
  at_fd = refl;
  active = (λ h. absurd (ground arith), λ h. absurd (omega (arith, h.0)));
  unset = λ h. refl;
  room = omega arith;
  settable = omega arith;
  free = λ off y h. omega (arith, h.0.0);
}

write-CanWatch : CanWatch open_world 1 5
write-CanWatch = record {
  watching = open-IsWatching;
  at_fd = refl;
  active = (λ h. absurd (ground arith), λ h. absurd (omega (arith, h.0)));
  unset = λ h. refl;
  room = omega arith;
  settable = omega arith;
  free = λ off y h. omega (arith, h.0.0);
}

handle_read_event-Handled_example :
    Returns (Handled open_world 0 (closes 0)) (handle_read_event open_world 0 0)
handle_read_event-Handled_example = handle_read_event-Handled 0 read-CanWatch refl

handle_write_event-Handled_example :
    Returns
      (λ r. ((r ≡ (error_status, open_world)) × (true ≡ false)) ⊎ Handled open_world 1 false r)
      (handle_write_event (λ o n. true) open_world 1 64)
handle_write_event-Handled_example =
    handle_write_event-Handled (λ o n. true) 0 64 write-CanWatch refl refl

init_connections-Initial_example : Returns (Initial 2) (init_connections open_world)
init_connections-Initial_example = init_connections-Initial open_world (omega arith) (omega arith)
