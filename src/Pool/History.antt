-- ===== src/Pool/History.antt =====
-- Over the life of a pool, what it takes from the system is what it gives back.
use mysqlproxy.Base.{
  ◌≤◌, ℕ, ◌+◌, ◌≡◌, ◌∙◌, refl, ap, Bool, Option, none, some, List, [], ◌∷◌, ◌++◌, arith, map_option,
}
use mysqlproxy.Base.Runs.{Returns-weaken, Returns-at, returns, Returns, Run, ok}
use mysqlproxy.Pool.{Pool, create_pool}
use mysqlproxy.Pool.Large.{
  Outcome, System, listed, large_node, palloc, pmemalign, release, pfree, destroy_pool,
}
use mysqlproxy.Pool.Balance.{count, count-append, count-pool}
use mysqlproxy.Pool.Kept.{Kept, palloc-Kept, align-Kept, unchanged-Kept, Released, release-Released}

-- the operations on a pool, with what the system gives
pub data Op : Type 0 where
  alloc : System → Bool → ℕ → Op
  align : System → Option ℕ → Op
  free : Option ℕ → Op

abbrev pub step : Op → Pool → Run Outcome
step (alloc sys aligned size) p = palloc 2 sys aligned p size
step (align sys given) p = pmemalign 1 sys given p
step (free a) p = elim (pfree a p) [
  | none ↦ ok (record { answer = none; pool = p; taken = []; freed = [] })
  | some o ↦ ok o
]

-- a pool with what it has taken from the system since it was created, and what it has given back
pub data History : Pool → List ℕ → List ℕ → Type 0 where
  created :
      (page a size : ℕ) {p : Pool}
      → create_pool page (some a) size ≡ some p
      → large_node ≤ p.max
      → History p (a ∷ []) []
  next :
      {p : Pool} {taken freed : List ℕ} {o : Outcome} (op : Op)
      → History p taken freed
      → step op p ≡ ok o
      → History o.pool (o.taken ++ taken) (o.freed ++ freed)

free-Kept : (a : Option ℕ) (p : Pool) → Returns (Kept p) (step (free a) p)
unfolding pfree
free-Kept a p = chosen (release a p.large) (release-Released a p.large)
  where
    chosen :
        (o : Option (List (Option ℕ)))
        → Released a p.large o
        → Returns
            (Kept p)
            (elim (map_option {B = Outcome}
                (λ ls. record {
                  answer = none;
                  pool = record p { large = ls };
                  taken = [];
                  freed = listed a;
                })
                o)
              as (λ _. Run Outcome) [
                | none ↦ ok (record { answer = none; pool = p; taken = []; freed = [] })
                | some o ↦ ok o
              ])
    chosen none r = returns (unchanged-Kept p)
    chosen (some ls) r = returns record {
      balanced = λ x. omega (arith, r x, count-pool x p, count-pool x (record p { large = ls }));
      limit = refl;
    }

step-Kept : (op : Op) (p : Pool) → large_node ≤ p.max → Returns (Kept p) (step op p)
step-Kept (alloc sys aligned size) p room = palloc-Kept 0 sys aligned p size room
step-Kept (align sys given) p room = align-Kept sys given p room
step-Kept (free a) p room = free-Kept a p

History-room : {p : Pool} {taken freed : List ℕ} → History p taken freed → large_node ≤ p.max
History-room (created page a size e room) = room
History-room (next {p} op h e) =
    let kept = Returns-at (step-Kept op p (History-room h)) e in
    omega (arith, kept.limit, History-room h)

all_freed :
    {p : Pool} {taken freed : List ℕ} (x : ℕ)
    → History p taken freed
    → count x (destroy_pool p) + count x freed ≡ count x taken
unfolding destroy_pool
all_freed x (created page a size {p} e room) =
    let own : a ∷ [] ≡ destroy_pool p =
      ap (λ (o : Option Pool). elim o as (λ _. List ℕ) [ none ↦ [] | some q ↦ destroy_pool q ]) e in
    omega (arith, ap (count x) own)
all_freed x (next {p} {taken} {freed} {o} op h e) =
    let kept = Returns-at (step-Kept op p (History-room h)) e in
    omega (
      arith,
      kept.balanced x,
      all_freed x h,
      count-append x o.taken taken,
      count-append x o.freed freed,
    )

-- Whatever allocations and calls of spy_pfree follow on the creation of a pool, in which an entry for a
-- large allocation is a small one: every further operation returns, and spy_destroy_pool frees what is
-- left, so that everything that was taken from the system, blocks and large allocations, failed calls
-- included, has then been freed exactly as often as it was taken.
pub destroy_pool-all :
    {p : Pool} {taken freed : List ℕ}
    → History p taken freed
    → ((x : ℕ) → count x (destroy_pool p ++ freed) ≡ count x taken)
      × ((op : Op) → Returns (λ _. Unit {0}) (step op p))
destroy_pool-all {p} {taken} {freed} h = (
  λ x. count-append x (destroy_pool p) freed ∙ all_freed x h,
  λ op. Returns-weaken (step-Kept op p (History-room h)) (λ _ _. tt),
)
