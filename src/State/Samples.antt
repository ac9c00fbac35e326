-- ===== src/State/Samples.antt =====
-- Small concrete states of the event core, for the tests.
use mysqlproxy.Base.{ℕ, ◌+◌, ◌*◌, true, false, none, some, update}
use mysqlproxy.State.{
  World, Event, Connection, Times, Tm, next_of, head_of, others, invalid_index, zero_event,
}

-- an event that is not watched
abbrev pub idle : Event
idle = record zero_event { index = invalid_index }

-- a connection without a descriptor, with the events `2 * c` and `2 * c + 1`
abbrev pub closed_connection : ℕ → Connection
closed_connection c = record {
  data_of = none;
  read = 2 * c;
  write = 2 * c + 1;
  fd = none;
  sent = 0;
  listening = none;
  pool = none;
  sndlowat = false;
  error = false;
}

abbrev pub sample_times : Times
sample_times = record {
  slot = 0;
  locked = false;
  current_msec = 100;
  cached_time = λ i. record { sec = 0; msec = 100 };
  cached_err_log_time = λ i. none;
  err_log_time_at = none;
  err_log_time_len = 0;
  cached_time_at = none;
}

abbrev pub tm_zero : Tm
tm_zero = record { year = 70; mon = 0; mday = 1; hour = 0; min = 0; sec = 0 }

-- connection 0 has descriptor 5, and connection 1 is free
abbrev pub open_world : World
open_world = record {
  events =
      update (update (λ e. idle) 0 (record idle { data_of = some 0 })) 1
        (record idle { data_of = some 0; write = true });
  connections = update closed_connection 0 (record (closed_connection 0) { fd = some 5 });
  connection_n = 2;
  free_connections = some 1;
  free_connection_n = 1;
  timers = record {
    root = 0;
    last = 2;
    max_num = 4;
    capacity = 10;
    slots = update (update (λ i. 0) 0 4) 1 6;
    nodes =
        update (update (λ a. record { key = 0; index = 0 }) 4 (record { key = 10; index = 0 })) 6
          (record { key = 12; index = 1 });
  };
  times = sample_times;
  accept_events = none;
  posted_events = none;
  select = record {
    master_read = λ f. false;
    master_write = λ f. false;
    work_read = λ f. false;
    work_write = λ f. false;
    max_fd = none;
    nevents = 0;
    event_index = λ i. 0;
    room = 4;
  };
}

-- event 0 is watched
abbrev pub watching_world : World
watching_world = record open_world {
  events = update open_world.events 0 (record idle { data_of = some 0; active = true; index = 0 });
  select = record (open_world.select) { master_read = update (λ f. false) 5 true; nevents = 1 };
}

-- the events 2 and 7 are in the queue of the events that do not accept
abbrev pub queued_world : World
queued_world = record open_world {
  events =
      update
        (update open_world.events 2 (record idle { prev = some (head_of others); next = some 7 })) 7
        (record idle { prev = some (next_of 2) });
  posted_events = some 2;
}

-- the events 4 and 6 have timers
abbrev pub timed_world : World
timed_world = record open_world {
  events =
      update (update (λ e. idle) 4 (record idle { timer_set = true })) 6
        (record idle { timer_set = true });
}
