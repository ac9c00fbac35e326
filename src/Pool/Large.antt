-- ===== src/Pool/Large.antt =====
-- core/spy_palloc.c: allocations of every size, freeing, and the end of a pool. An operation's outcome
-- lists what it has taken from the system and what it has given back.
use mysqlproxy.Base.{
  ℕ, zero, suc, ◌+◌, Bool, true, false, Option, none, some, List, [], ◌∷◌, ◌++◌, map_option, ltb,
  leb, ◌==◌, if◌then◌else◌,
}
use mysqlproxy.Base.Runs.{Run, ok, out_of_fuel, ◌>>=◌}
use mysqlproxy.Pool.{Block, Pool, search_from, palloc_small}

pub record Outcome : Type 0 where
  pub answer : Option ℕ
  pub pool : Pool
  pub taken : List ℕ
  pub freed : List ℕ

-- what spy_alloc() and spy_memalign() give, by the number of calls that may still follow
pub record System : Type 0 where
  pub alloc : ℕ → Option ℕ
  pub block : ℕ → Option ℕ

abbrev pub listed : Option ℕ → List ℕ
listed none = []
listed (some a) = a ∷ []

-- what `spy_palloc` and `spy_pnalloc` take from the system for a small size
unfoldable pub taken_small : Bool → Option ℕ → Pool → ℕ → List ℕ
taken_small aligned fresh p size = elim (search_from aligned size p.current p.blocks) [
  | some r ↦ []
  | none ↦ listed fresh
]

abbrev pub small : Bool → Option ℕ → Pool → ℕ → Outcome
small aligned fresh p size =
    let r = palloc_small aligned fresh p size in
    record { answer = r.0; pool = r.1; taken = taken_small aligned fresh p size; freed = [] }

-- the loop of `spy_palloc_large`: one of the first five entries that holds nothing is used again
unfoldable pub reuse : ℕ → ℕ → List (Option ℕ) → Option (List (Option ℕ))
reuse n a [] = none
reuse n a (none ∷ ls) = some (some a ∷ ls)
reuse n a (some b ∷ ls) =
    let rest = map_option (λ ls'. some b ∷ ls') (reuse (suc n) a ls) in
    if ltb 3 n then none else rest

-- sizeof(spy_pool_large_t)
abbrev pub large_node : ℕ
large_node = 16

-- the new entry for `a`, where `node` is what the pool gave for it
abbrev pub enter : ℕ → Outcome → Outcome
enter a node = elim node.answer [
  | none ↦ record node { answer = none; taken = a ∷ node.taken; freed = a ∷ node.freed }
  | some l ↦ record node {
    answer = some a;
    pool = record (node.pool) { large = some a ∷ node.pool.large };
    taken = a ∷ node.taken;
  }
]

-- `spy_palloc_large`, where `node` is its call of `spy_palloc` for a new entry
abbrev pub palloc_large : Option ℕ → Run Outcome → Pool → Run Outcome
palloc_large none node p = ok (record { answer = none; pool = p; taken = []; freed = [] })
palloc_large (some a) node p = elim (reuse 0 a p.large) as (λ _. Run Outcome) [
  | some ls ↦
      ok (record { answer = some a; pool = record p { large = ls }; taken = a ∷ []; freed = [] })
  | none ↦ node >>= λ o. ok (enter a o)
]

-- `spy_palloc`, and `spy_pnalloc` where `aligned` is false, on fuel for the calls that nest
unfoldable pub palloc : ℕ → System → Bool → Pool → ℕ → Run Outcome
palloc zero sys aligned p size = out_of_fuel
palloc (suc k) sys aligned p size =
    let large = palloc_large (sys.alloc k) (palloc k sys true p large_node) p in
    if leb size p.max then ok (small aligned (sys.block k) p size) else large

-- `spy_pmemalign`, where `given` is what spy_memalign() gives
unfoldable pub pmemalign : ℕ → System → Option ℕ → Pool → Run Outcome
unfolding palloc
pmemalign k sys none p = ok (record { answer = none; pool = p; taken = []; freed = [] })
pmemalign k sys (some a) p = palloc k sys true p large_node >>= λ node. ok (enter a node)

-- the comparison of two pointers
abbrev pub same : Option ℕ → Option ℕ → Bool
same none none = true
same (some a) (some b) = a == b
same _ _ = false

-- the loop of `spy_pfree`
unfoldable pub release : Option ℕ → List (Option ℕ) → Option (List (Option ℕ))
release a [] = none
release a (l ∷ ls) =
    let rest = map_option (λ ls'. l ∷ ls') (release a ls) in
    if same a l then some (none ∷ ls) else rest

-- `spy_pfree`: `none` is SPY_DECLINED
unfoldable pub pfree : Option ℕ → Pool → Option Outcome
unfolding release
pfree a p =
    map_option
      (λ ls. record { answer = none; pool = record p { large = ls }; taken = []; freed = listed a })
      (release a p.large)

-- the large allocations that are there
abbrev pub held : List (Option ℕ) → List ℕ
held [] = []
held (none ∷ ls) = held ls
held (some a ∷ ls) = a ∷ held ls

abbrev pub starts : List Block → List ℕ
starts [] = []
starts (b ∷ bs) = b.start ∷ starts bs

-- `spy_destroy_pool`: what it frees, in its order
unfoldable pub destroy_pool : Pool → List ℕ
destroy_pool p = held p.large ++ starts p.blocks

-- the zeros that `spy_pcalloc` writes
abbrev pub memzero : (ℕ → ℕ) → ℕ → ℕ → ℕ → ℕ
memzero m a n i = if leb a i then (if ltb i (a + n) then 0 else m i) else m i

-- `spy_pcalloc`, with the memory
unfoldable pub pcalloc : ℕ → System → Pool → ℕ → (ℕ → ℕ) → Run (Outcome × (ℕ → ℕ))
unfolding palloc
pcalloc k sys p size m = palloc k sys true p size >>= λ o. elim o.answer [
  | none ↦ ok (o, m)
  | some a ↦ ok (o, memzero m a size)
]
