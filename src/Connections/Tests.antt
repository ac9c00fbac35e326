-- ===== src/Connections/Tests.antt =====
-- The theorems on connections at an open one and a free one.
use mysqlproxy.Base.{ℕ, inl, refl, some, List, [], ◌∷◌, arith}
use mysqlproxy.Base.Runs.{Returns}
use mysqlproxy.State.{Queue, others}
use mysqlproxy.State.Samples.{open_world, watching_world, queued_world}
use mysqlproxy.Posted.Both.{IsPosted}
use mysqlproxy.Posted.Tests.{queued-IsPosted}
use mysqlproxy.Select.Tests.{sample-IsWatching}
use mysqlproxy.Connections.{get_connection, close_connection}
use mysqlproxy.Connections.Free.{free_nil, free_cons, IsListed, IsWired, Got, get_connection-Taken}
use mysqlproxy.Connections.Close.{IsOpen, Closed, close_connection-Closed}
use mysqlproxy.Connections.Reuse.{get_connection-not-IsPosted}

pub open-IsListed : IsListed open_world (1 ∷ [])
open-IsListed = record { list = free_cons refl refl free_nil; count = refl; bounded = omega arith }

watching-IsListed : IsListed watching_world (1 ∷ [])
watching-IsListed = record {
  list = free_cons refl refl free_nil;
  count = refl;
  bounded = omega arith;
}

pub open-IsWired : IsWired open_world
open-IsWired = record {
  reads = λ c d t. ground arith;
  writes = λ c d t. ground arith;
  apart = λ c d t. ground arith;
}

watching-IsOpen : IsOpen watching_world 0 5
watching-IsOpen = record {
  at_fd = refl;
  read_data = refl;
  write_data = refl;
  read_kind = refl;
  write_kind = refl;
  read_active = (λ t. (omega arith, refl), λ t. refl);
  write_active = (λ t. absurd (ground arith), λ t. absurd (omega (arith, t.0)));
  only = λ e h t. ground arith;
}

get_connection-Taken_example : Got open_world (some 9) (1 ∷ []) (get_connection open_world (some 9))
get_connection-Taken_example = get_connection-Taken (some 9) (1 ∷ []) open-IsListed open-IsWired

close_connection-Closed_example :
    Returns (Closed watching_world 0 (1 ∷ [])) (close_connection watching_world 0)
close_connection-Closed_example =
    close_connection-Closed 0 5 sample-IsWatching watching-IsOpen watching-IsListed refl
      (omega arith)

get_connection-not-IsPosted_example :
    ¬ ((fs : Queue → List ℕ) × IsPosted (get_connection queued_world (some 9)).1 fs)
get_connection-not-IsPosted_example =
    get_connection-not-IsPosted others (some 9) 1 2 queued-IsPosted refl (inl refl) refl
