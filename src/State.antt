-- ===== src/State.antt =====
-- The shared state of the event core: events (event/spy_event.h), connections
-- (core/spy_connection.h), the globals that list them (core/spy_global.h), the timer heap, the two
-- posted queues and the variables of event/module/spy_event_select.c. A pointer is the number of the
-- object that it points at, `none` is NULL, and a descriptor `none` is -1.
pub mod Samples
use mysqlproxy.Base.{◌-◌, ◌%◌, ◌+◌, ℕ, ◌^◌, Bool, false, Option, none, some, update}
use mysqlproxy.Base.Runs.{Run, ok, fault, ◌>>=◌}
use mysqlproxy.Minheap
use mysqlproxy.Minheap.{Node}

pub data Status : Type 0 where
  ok_status error_status : Status

-- the two variables that head a posted queue
pub data Queue : Type 0 where
  accepts others : Queue

-- what `prev`, of type `spy_event_t **`, points at
pub data Link : Type 0 where
  head_of : Queue → Link
  next_of : ℕ → Link

-- `spy_event_s`. Its `timer` is the node of the same number in the timer heap.
pub record Event : Type 0 where
  pub data_of : Option ℕ
  pub write : Bool
  pub accept : Bool
  pub active : Bool
  pub ready : Bool
  pub eof : Bool
  pub error : Bool
  pub timedout : Bool
  pub timer_set : Bool
  pub index : ℕ
  pub available : Bool
  pub handler : Option ℕ
  pub closed : Bool
  pub next : Option ℕ
  pub prev : Option Link

-- `spy_connection_s`, less the fields that no function of the model uses
pub record Connection : Type 0 where
  pub data_of : Option ℕ
  pub read : ℕ
  pub write : ℕ
  pub fd : Option ℕ
  pub sent : ℕ
  pub listening : Option ℕ
  pub pool : Option ℕ
  pub sndlowat : Bool
  pub error : Bool

-- the static variables of event/module/spy_event_select.c
pub record Select : Type 0 where
  pub master_read : ℕ → Bool
  pub master_write : ℕ → Bool
  pub work_read : ℕ → Bool
  pub work_write : ℕ → Bool
  pub max_fd : Option ℕ
  pub nevents : ℕ
  pub event_index : ℕ → ℕ
  pub room : ℕ

-- `struct tm`, as `localtime` fills it
pub record Tm : Type 0 where
  pub year : ℕ
  pub mon : ℕ
  pub mday : ℕ
  pub hour : ℕ
  pub min : ℕ
  pub sec : ℕ

pub record CachedTime : Type 0 where
  pub sec : ℕ
  pub msec : ℕ

-- the variables of core/spy_times.c; a slot of the log time holds what its text is printed from
pub record Times : Type 0 where
  pub slot : ℕ
  pub locked : Bool
  pub current_msec : ℕ
  pub cached_time : ℕ → CachedTime
  pub cached_err_log_time : ℕ → Option Tm
  pub err_log_time_at : Option ℕ
  pub err_log_time_len : ℕ
  pub cached_time_at : Option ℕ

pub record World : Type 0 where
  pub events : ℕ → Event
  pub connections : ℕ → Connection
  pub connection_n : ℕ
  pub free_connections : Option ℕ
  pub free_connection_n : ℕ
  pub timers : Minheap.Heap
  pub times : Times
  pub accept_events : Option ℕ
  pub posted_events : Option ℕ
  pub select : Select

-- `SPY_INVALID_INDEX`
abbrev pub invalid_index : ℕ
invalid_index = 0xd0d0d0d0

-- a machine word of 64 bits: `size_t`, `spy_uint_t`
abbrev pub word : ℕ
word = 2 ^ 64

abbrev pub set_event : World → ℕ → Event → World
set_event w e v = record w { events = update w.events e v }

abbrev pub set_connection : World → ℕ → Connection → World
set_connection w c v = record w { connections = update w.connections c v }

-- what `spy_memzero` leaves
abbrev pub zero_event : Event
zero_event = record {
  data_of = none;
  write = false;
  accept = false;
  active = false;
  ready = false;
  eof = false;
  error = false;
  timedout = false;
  timer_set = false;
  index = 0;
  available = false;
  handler = none;
  closed = false;
  next = none;
  prev = none;
}

-- the connection that an event belongs to, a fault where `data` is NULL
abbrev pub owner : World → ℕ → Run ℕ
owner w e = elim (w.events e).data_of [ some c ↦ ok c | none ↦ fault ]

-- the descriptor of an event's connection, a fault where it is -1
abbrev pub event_fd : World → ℕ → Run ℕ
event_fd w e = owner w e >>= λ c. elim (w.connections c).fd [ some f ↦ ok f | none ↦ fault ]

-- `--n` and `++n` on a `spy_uint_t`
abbrev pub dec_word : ℕ → ℕ
dec_word n = (n + word - 1) % word

abbrev pub inc_word : ℕ → ℕ
inc_word n = (n + 1) % word
