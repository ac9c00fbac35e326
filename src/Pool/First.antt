-- ===== src/Pool/First.antt =====
-- Allocations from a first block that has room.
use mysqlproxy.Base.{
  ℕ, suc, ◌+◌, ◌-◌, ◌%◌, ◌≤◌, ◌<◌, ◌≡◌, refl, true, some, List, [], ◌∷◌, arith, leb,
}
use mysqlproxy.Base.Runs.{ok}
use mysqlproxy.State.{word}
use mysqlproxy.Pool.{Block, Pool, palloc_small, search_from, search, align_ptr}
use mysqlproxy.Pool.Large.{System, palloc, taken_small}

-- a pool whose first block, the current one, is in use up to `l`
abbrev pub ending : Block → List Block → ℕ → Pool → Pool
ending b bs l p = record p { blocks = record b { last = l } ∷ bs; current = 0 }

-- an allocation at the aligned end of the first block
pub palloc-first :
    (k : ℕ) (sys : System) (b : Block) (bs : List Block) (p : Pool) (l size : ℕ)
    → l % 8 ≡ 0
    → l + size ≤ b.end
    → b.end < word
    → size ≤ p.max
    → palloc (suc k) sys true (ending b bs l p) size
      ≡ ok (record { answer = some l; pool = ending b bs (l + size) p; taken = []; freed = [] })
unfolding palloc palloc_small taken_small search_from
palloc-first k sys b bs p l size aligned fits bound size_fits =
    let at : align_ptr l ≡ l = omega (arith, aligned) in
    let room : leb size ((b.end + word - l) % word) ≡ true =
      let exact : (b.end + word - l) % word ≡ b.end - l = omega arith in ground (arith, exact) in
    let allowed : leb size p.max ≡ true = ground arith in
    rw (allowed, palloc_small, taken_small, search_from, search, at, room) refl
