-- ===== src/Posted.antt =====
-- event/spy_event_posted.h and event/spy_event_posted.c: the queues of events whose handlers are to
-- run. A queue is a linked list whose elements know the pointer that points at them.
pub mod Chain
pub mod Remove
pub mod Both
pub mod Delete
pub mod Process
pub mod Tests
use mysqlproxy.Base.{ℕ, zero, suc, Bool, Option, none, some, update, if◌then◌else◌}
use mysqlproxy.Base.Runs.{Run, ok, fault, out_of_fuel, ◌>>=◌}
use mysqlproxy.State.{Queue, accepts, others, Link, head_of, next_of, Event, World, set_event}

-- `*link`
abbrev pub read_link : World → Link → Option ℕ
read_link w (head_of accepts) = w.accept_events
read_link w (head_of others) = w.posted_events
read_link w (next_of e) = (w.events e).next

-- `*link = p`
abbrev pub write_link : World → Link → Option ℕ → World
write_link w (head_of accepts) p = record w { accept_events = p }
write_link w (head_of others) p = record w { posted_events = p }
write_link w (next_of e) p = set_event w e (record (w.events e) { next = p })

-- `if (p) p->prev = link`
abbrev pub link_back : World → Option ℕ → Option Link → World
link_back w none l = w
link_back w (some e) l = set_event w e (record (w.events e) { prev = l })

-- event `e` in front of the queue
abbrev pub in_front : World → ℕ → Queue → World
in_front w e q =
    let first = read_link w (head_of q) in
    let linked = set_event w e (record (w.events e) { next = first; prev = some (head_of q) }) in
    link_back (write_link linked (head_of q) (some e)) first (some (next_of e))

-- `spy_post_event`: an event that is in a queue stays where it is
unfoldable pub post_event : World → ℕ → Queue → World
post_event w e q = elim (w.events e).prev [ none ↦ in_front w e q | some _ ↦ w ]

-- event `e`, at which `l` points, is taken out
abbrev pub taken_out : World → ℕ → Link → World
taken_out w e l =
    let cut = write_link w l (w.events e).next in
    let w' = link_back cut (cut.events e).next (some l) in
    set_event w' e (record (w'.events e) { prev = none })

-- `spy_delete_posted_event`
unfoldable pub delete_posted : World → ℕ → Run World
delete_posted w e = elim (w.events e).prev [ none ↦ fault | some l ↦ ok (taken_out w e l) ]

-- `spy_event_process_posted`, with the handlers as a parameter
unfoldable pub process_posted : (ℕ → World → Run World) → ℕ → Queue → World → Run World
process_posted handle zero q w = out_of_fuel
process_posted handle (suc k) q w = elim (read_link w (head_of q)) [
  | none ↦ ok w
  | some e ↦ delete_posted w e >>= λ w'. handle e w' >>= λ w''. process_posted handle k q w''
]
