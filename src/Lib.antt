-- ===== src/Lib.antt =====
-- mysqlproxy, a proxy for MySQL in C: its event core, which is the select() loop, the queues of
-- posted events, the timers, and the connections with their two events each, and the code next to
-- it that reads, writes and prints.
--
-- How the parts interact. A connection (core/spy_connection.c) owns a read and a write event, which
-- point back at it. The select() module (event/module/spy_event_select.c) watches events: a round
-- of it asks the kernel, brings the cached time up to date (core/spy_times.c), and posts the events
-- that are ready (event/spy_event_posted.h), whose handlers event/spy_event_posted.c then runs.
-- Timers (event/spy_event_timer.c) are nodes inside events, kept in a binary heap
-- (core/spy_minheap.c). The handlers read and write through os/unix/spy_recv.c and
-- os/unix/spy_send.c and then tell the select() module by event/spy_event.c whether to go on
-- watching. Of the rest of the program there are the listening sockets, memory pools, lists and
-- arrays, the list of open files, printing by formats, writing to files, the change from one
-- configuration to the next, and the packet that the proxy greets a client with.
--
-- The state. Base.Runs is how a call ends: it returns, it makes an access that C leaves undefined
-- (`fault`), or the model's fuel has run out, which every theorem on a loop excludes. State holds
-- the shared state as one record `World`, passed through every operation: events and connections
-- are functions of their number, a pointer is a number, NULL and the descriptor -1 are `none`. The
-- timer node of an event has the event's number. Numbers are natural numbers; where the source
-- computes with 64-bit words the remainder is written out.
--
-- The files, by the code that they are about:
-- - Base, Base.Tests, Base.Runs: names, Boolean tests, conditionals, runs of C code.
-- - Minheap: core/spy_minheap.c and .h. The definitions carry the source's names without the prefix
--   spy_minheap_. Minheap.Order holds the invariants, Insert, Fall and Delete the two operations, Leaf
--   deletions without a loop, Limits what goes wrong at the edges.
-- - State: event/spy_event.h, core/spy_connection.h, core/spy_global.h, the static variables of the
--   others; State.Samples: small states for the tests.
-- - Times: core/spy_times.c (`time_update` is spy_time_update_r, `time_init` spy_time_init).
-- - Posted: event/spy_event_posted.h and .c (`post_event`, `delete_posted`, `process_posted`).
-- - Select: event/module/spy_event_select.c (`add_event`, `del_event`; in Select.Poll
--   `process_events`, `repair`); Watch holds the invariant, Start has
--   `init` and `done`, which are spy_select_init and spy_select_done.
-- - Timer: event/spy_event_timer.c and .h (`find_timer`, `expire_timers`, `add_timer`, `del_timer`).
-- - Connections: core/spy_connection.c (`free_connection`, `get_connection`, `close_connection`).
-- - Listening: the same file's listening sockets (`open_sockets` is spy_open_listening_sockets,
--   `close_sockets` spy_close_listening_sockets).
-- - Events: event/spy_event.c (`handle_read_event`, `handle_write_event`, `send_lowat`; and
--   `init_connections`, the part of spy_event_init that builds the list of free connections).
-- - Turn: event/spy_event.c (`turn` is spy_process_events_and_timers, one turn of the event loop).
-- - Accept: event/spy_event_accept.c (`accept` is spy_event_accept).
-- - Transfer: os/unix/spy_send.c and os/unix/spy_recv.c.
-- - Files: os/unix/spy_files.c.
-- - Text: core/spy_string.c (`sprintf_num`, `printf_pad`, `cpystrn`).
-- - Format and Printf: the format loop of core/spy_string.c. Format has the parts of a directive and
--   spy_modf of core/spy_math.c, Printf the loop itself (`vslprintf`) and its callers; Printf.Items is the
--   independent description of what a format prints.
-- - Log: core/spy_log.c (`log_error_core` is spy_log_error_core, `log_to` spy_log_stderr and
--   spy_log_stdout), over Printf, and spy_strerror of os/unix/spy_errno.c.
-- - Pool: core/spy_palloc.c (`palloc_small` is spy_palloc and spy_pnalloc up to the pool's `max`;
--   Pool.Large has the rest). Pool.History follows a pool from its creation to its end.
-- - Arrays: core/spy_array.c and core/spy_array.h, over the pools.
-- - Reload: core/spy_global.c, what a new configuration does with the listening sockets of the old one
--   (`inherit`, `close_old`, `roll_back` are parts of spy_global_init) and the clearing of old
--   configurations (`clean` is spy_clean_old_global). spy_global_init retires them to spy_old_cycles, an
--   array that no file declares and that the model keeps apart from the one that is cleared.
-- - Reopen: core/spy_global.c, the loops over the open files of the new and the old configuration (`walk`
--   opens them, `close_files` closes them, in `try_files` behind a failure).
-- - Parts: core/spy_list.c.
-- - OpenFiles: core/spy_conf_file.c, the list of open files (`open_file` is spy_conf_open_file), over Parts.
-- - Handshake: proxy/spy_mysql_packet.c (`create_acl` is spy_proxy_create_acl) and spy_get_endian of
--   core/spy_inet.c.
--
-- Bounds and fuel. The loops of the heap run on fuel: a position more than halves going up and
-- doubles going down, so the position plus one, and the number of nodes, are enough; the theorems
-- show that the fuel does not run out. Processing a queue needs one round more than the queue has
-- events. Expiring timers takes its fuel as an argument. Sending and receiving need one round more
-- than calls are interrupted, writing a file one more than there are bytes, and printing a number
-- the twenty digits that its buffer has room for. The format loop needs one round more than the
-- format has bytes, unless there is a '.' in it, and an allocation nests once, as a large one makes
-- a small one. spy_open_listening_sockets has five tries.
--
-- What is a parameter: the handlers of events, what the system calls answer (select(), accept(),
-- getsockopt, setsockopt, socket, bind, listen, send, recv, lseek, write, read, open, fcntl),
-- localtime and gettimeofday, and the random number of the handshake, and the texts of the errors.
-- Allocations are taken to succeed, except in the pools, the lists, the arrays, the open files and
-- the start of the select() module. Addresses do not wrap. An access is `fault` where the code
-- itself makes it out of bounds: descriptors from FD_SETSIZE on in FD_SET, indices, the buffer of
-- the log; the end of a buffer that a caller of the format loop passes is the caller's affair. Of
-- doubles the bits are modelled, and the processor's operations on them are parameters. The other
-- parts of the program leave out what they log. Not modelled: the setting up of the log, sending
-- the handshake, reading the configuration's values, the Lua bindings and the main programs.
pub mod Accept
pub mod Arrays
pub mod Base
pub mod Connections
pub mod Events
pub mod Files
pub mod Format
pub mod Handshake
pub mod Listening
pub mod Log
pub mod Minheap
pub mod OpenFiles
pub mod Parts
pub mod Pool
pub mod Posted
pub mod Printf
pub mod Reload
pub mod Reopen
pub mod Select
pub mod State
pub mod Text
pub mod Timer
pub mod Times
pub mod Transfer
pub mod Turn
