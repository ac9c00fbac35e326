-- ===== src/Accept/Tests.antt =====
-- Two answers of accept(): an aborted connection, and then a socket.
use mysqlproxy.Base.{true, some, [], ◌∷◌}
use mysqlproxy.Base.Runs.{ok}
use mysqlproxy.State.Samples.{open_world}
use mysqlproxy.Connections.Tests.{open-IsListed, open-IsWired}
use mysqlproxy.Accept.{Outside, socket, aborted, accept}
use mysqlproxy.Accept.Taken.{Accepted, arrived, accept-Accepted}

abbrev calm : Outside
calm = record {
  pool = some 4096;
  has_sockaddr = true;
  addr_ntop = true;
  has_text = true;
  printed = true;
  handler = λ c w. ok w;
}

accept-Accepted_example :
    Accepted calm 0
      (some 3)
      open_world
      (1 ∷ [])
      (arrived (open_world.events 0).available (aborted ∷ socket 9 ∷ []))
      (accept calm 0 (some 3) (aborted ∷ socket 9 ∷ []) open_world)
accept-Accepted_example =
    accept-Accepted calm 0 (some 3) open_world (aborted ∷ socket 9 ∷ []) (1 ∷ []) tt open-IsListed
      open-IsWired
