-- ===== src/Select.antt =====
-- event/module/spy_event_select.c: the select() module. `event_index` lists the events that are
-- watched, in any order, and each keeps its place in it.
pub mod Watch
pub mod Unwatch
pub mod Poll
pub mod Start
pub mod Tests
use mysqlproxy.Base.{
  ◌&&◌, ◌||◌, ℕ, ◌+◌, Bool, true, false, not, Option, none, some, update, ltb, ◌==◌, if◌then◌else◌,
}
use mysqlproxy.Base.Runs.{Run, ok, fault, ◌>>=◌}
use mysqlproxy.State.{
  dec_word, Status, ok_status, error_status, Event, Select, World, invalid_index, set_event,
  event_fd,
}

-- the second argument of the functions: SPY_READ_EVENT or SPY_WRITE_EVENT
pub data Kind : Type 0 where
  read_event write_event : Kind

-- `(event == SPY_READ_EVENT && ev->write) || (event == SPY_WRITE_EVENT && !ev->write)`
abbrev pub wrong_kind : Kind → Event → Bool
wrong_kind read_event v = v.write
wrong_kind write_event v = not v.write

-- FD_SETSIZE, the number of descriptors that an `fd_set` has room for
abbrev pub fd_setsize : ℕ
fd_setsize = 1024

-- FD_SET and FD_CLR on the master set of the kind, for a descriptor below FD_SETSIZE
abbrev pub set_fd : Select → Kind → ℕ → Bool → Select
set_fd s read_event f b = record s { master_read = update s.master_read f b }
set_fd s write_event f b = record s { master_write = update s.master_write f b }

-- `if (max_fd != -1 && max_fd < fd) max_fd = fd`
abbrev pub raise_max : Option ℕ → ℕ → Option ℕ
raise_max none f = none
raise_max (some m) f = if ltb m f then some f else some m

-- `if (max_fd == fd) max_fd = -1`
abbrev pub drop_max : Option ℕ → ℕ → Option ℕ
drop_max none f = none
drop_max (some m) f = if m == f then none else some m

-- descriptor `f` in its set, and the event behind the others of `event_index`
abbrev pub watched_world : World → ℕ → Kind → ℕ → World
watched_world w e kind f =
    let s = set_fd w.select kind f true in
    record (set_event w e (record (w.events e) { active = true; index = w.select.nevents })) {
      select = record s {
        max_fd = raise_max s.max_fd f;
        event_index = update s.event_index s.nevents e;
        nevents = s.nevents + 1;
      };
    }

-- `spy_select_add_event`; FD_SET from FD_SETSIZE on is a fault, as is an index without room
unfoldable pub add_event : World → ℕ → Kind → Run (Status × World)
add_event w e kind =
    let v = w.events e in
    let watched = event_fd w e >>= λ f.
    if ltb f fd_setsize && ltb w.select.nevents w.select.room
    then ok (ok_status, watched_world w e kind f)
    else fault in
    if not (v.index == invalid_index)
    then ok (ok_status, w)
    else if wrong_kind kind v
    then ok (error_status, w)
    else watched

-- `if (ev->index < --nevents)`: the last event of `event_index` takes the place `i`
abbrev pub fill_place : World → ℕ → World
fill_place w i =
    let s = w.select in
    let n = dec_word s.nevents in
    let last = s.event_index n in
    let shorter = record s { nevents = n } in
    let filled = record (set_event w last (record (w.events last) { index = i })) {
      select = record shorter { event_index = update s.event_index i last };
    } in
    if ltb i n then filled else record w { select = shorter }

-- what `spy_select_del_event` leaves of a watched event
abbrev pub dropped_world : World → ℕ → Kind → ℕ → World
dropped_world w e kind f =
    let idle = set_event w e (record (w.events e) { active = false }) in
    let s = set_fd w.select kind f false in
    let w' =
      fill_place (record idle { select = record s { max_fd = drop_max s.max_fd f } })
        (w.events e).index in
    set_event w' e (record (w'.events e) { index = invalid_index })

-- `spy_select_del_event`; FD_CLR from FD_SETSIZE on is a fault, as is a last event outside of
-- `event_index`
unfoldable pub del_event : World → ℕ → Kind → Run (Status × World)
del_event w e kind =
    let i = (w.events e).index in
    let n = dec_word w.select.nevents in
    let dropped = event_fd w e >>= λ f.
    if not (ltb f fd_setsize) || (ltb i n && not (ltb n w.select.room))
    then fault
    else ok (ok_status, dropped_world w e kind f) in
    if i == invalid_index
    then ok (ok_status, set_event w e (record (w.events e) { active = false }))
    else dropped
