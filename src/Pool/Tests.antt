-- ===== src/Pool/Tests.antt =====
-- Allocations from a pool of 1024 bytes, and from one of 1021.
use mysqlproxy.Base.{ℕ, ◌≡◌, refl, true, none, some, [], ◌∷◌, ◌++◌, arith}
use mysqlproxy.Pool.{Block, Pool, create_pool, palloc_small}
use mysqlproxy.Pool.Small.{all_nil, all_cons}
use mysqlproxy.Pool.Alloc.{IsPool, Allocated, palloc_small-Allocated}
use mysqlproxy.Base.Runs.{Returns}
use mysqlproxy.Pool.Large.{System, palloc, pfree, destroy_pool, reuse, taken_small}
use mysqlproxy.Pool.Balance.{count}
use mysqlproxy.Pool.History.{History, created, next, Op, alloc, free, step, destroy_pool-all}

abbrev pub kilobyte : Pool
kilobyte = record {
  blocks = record { start = 4096; last = 4160; end = 5120; failed = 0 } ∷ [];
  current = 0;
  max = 960;
  large = [];
}

kilobyte_run : create_pool 4096 (some 4096) 1024 ≡ some kilobyte
kilobyte_run = refl

pub kilobyte-IsPool : IsPool kilobyte
kilobyte-IsPool = record {
  good =
      all_cons
        (record {
          inside = omega arith;
          above = omega arith;
          aligned_end = refl;
          bounded = omega arith;
        })
        all_nil;
  whole_words = refl;
  room = omega arith;
}

palloc_small-Allocated_example :
    Allocated true 100 kilobyte (some 8192) (palloc_small true (some 8192) kilobyte 100)
palloc_small-Allocated_example =
    palloc_small-Allocated true 100 kilobyte (some 8192) kilobyte-IsPool (omega arith) (λ a t.
      let same : a ≡ 8192 = ground arith in record { aligned = rw same refl; below = omega arith })

abbrev odd_end : Block
odd_end = record { start = 4096; last = 5117; end = 5117; failed = 0 }

abbrev giving : System
giving = record { alloc = λ k. some 9000; block = λ k. none }

-- a large allocation that is freed again: its entry of 16 bytes stays
abbrev one_entry : Pool
one_entry = record kilobyte {
  blocks = record { start = 4096; last = 4176; end = 5120; failed = 0 } ∷ [];
  large = none ∷ [];
}

one_entry-History : History one_entry (9000 ∷ 4096 ∷ []) (9000 ∷ [])
unfolding palloc pfree reuse palloc_small taken_small
one_entry-History =
    next (free (some 9000))
      (next (alloc giving true 2000) (created 4096 4096 1024 refl (omega arith)) refl) refl

destroy_pool-all_example :
    ((x : ℕ) → count x (destroy_pool one_entry ++ 9000 ∷ []) ≡ count x (9000 ∷ 4096 ∷ []))
    × ((op : Op) → Returns (λ _. Unit {0}) (step op one_entry))
destroy_pool-all_example = destroy_pool-all one_entry-History
