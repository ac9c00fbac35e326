-- ===== src/Arrays/Tests.antt =====
-- Arrays in a pool of 1024 bytes.
use mysqlproxy.Base.{◌≡◌, refl, none, arith}
use mysqlproxy.Base.Runs.{Returns, ok}
use mysqlproxy.Pool.{Block, Pool, palloc_small}
use mysqlproxy.Pool.Large.{System, palloc, taken_small}
use mysqlproxy.Pool.Tests.{kilobyte, kilobyte-IsPool}
use mysqlproxy.Arrays.{Place, element, push}
use mysqlproxy.Arrays.Push.{IsArray, Grown, push-Grown}

abbrev no_system : System
no_system = record { alloc = λ k. none; block = λ k. none }

-- two elements of eight bytes, both in use
abbrev full_array : Place
full_array = record {
  array = record { elts = 4136; nelts = 2; size = 8; nalloc = 2 };
  pool = kilobyte;
  mem = λ a. a;
}

full_array-IsArray : IsArray 1 full_array.array
full_array-IsArray = record { within = omega arith; small = omega arith }

push-Grown_example : Returns (Grown 2 no_system 1 full_array) (push 2 no_system full_array)
push-Grown_example =
    push-Grown 0 no_system full_array kilobyte-IsPool (omega arith) full_array-IsArray (omega arith)

-- an array that has no room grows from nothing to nothing, and its first element is outside of it
abbrev empty_array : Place
empty_array = record full_array { array = record { elts = 5000; nelts = 0; size = 8; nalloc = 0 } }

empty_run :
    (s : Place) × (push 2 no_system empty_array ≡ ok (element 4160 s))
    × (s.array.nalloc ≡ 0)
    × (s.array.nelts ≡ 1)
unfolding push palloc palloc_small taken_small
empty_run = (_, refl, refl, refl)

abbrev first_block : Block
first_block = record { start = 4096; last = 4160; end = 5120; failed = 0 }
