-- ===== src/Listening/Tests.antt =====
-- Opening three entries: one is open, one can be bound, and the address of one is in use.
use mysqlproxy.Base.{true, false, none, some, update, ◌==◌, if◌then◌else◌, ◌+◌}
use mysqlproxy.Listening.{bound, in_use, Calls, Sockets}

abbrev busy : Calls
busy = record {
  socket = λ t i. some (i + 10);
  reuse = λ t i. true;
  nonblocking = λ t i. true;
  bind = λ t i. if i == 2 then in_use else bound;
  listen = λ t i. true;
}

abbrev one_open : Sockets
one_open = record {
  entries =
      update (λ i. record { fd = none; listen = false; connection = none }) 0
        (record { fd = some 7; listen = true; connection = none });
  opened = λ s. s == 7;
}
