-- ===== src/Pool/Kept.antt =====
-- Every operation on a pool keeps the balance of what it owns, takes and frees.
use mysqlproxy.Base.{
  ◌≤◌, ℕ, suc, ◌+◌, ◌≡◌, refl, inl, inr, Bool, true, Option, none, some, List, [], ◌∷◌, arith,
  map_option, ltb, leb, Bool-cases,
}
use mysqlproxy.Base.Runs.{Returns-branch, returns, Returns, Run, ok, ◌>>=◌}
use mysqlproxy.Pool.{Block, Pool, search_from, palloc_block, palloc_small}
use mysqlproxy.Pool.Large.{
  palloc_large, Outcome, System, listed, small, reuse, large_node, enter, palloc, pmemalign, same,
  release, held,
}
use mysqlproxy.Pool.Balance.{count, count-pool, Balanced, small-Balanced}

-- an entry that is used again
abbrev Reused : ℕ → List (Option ℕ) → Option (List (Option ℕ)) → Type 0
Reused a ls none = Unit
Reused a ls (some ls') = (x : ℕ) → count x (held ls') ≡ count x (held ls) + count x (a ∷ [])

Reused-behind :
    (a b : ℕ) (ls : List (Option ℕ)) (o : Option (List (Option ℕ)))
    → Reused a ls o
    → Reused a (some b ∷ ls) (map_option (λ ls'. some b ∷ ls') o)
Reused-behind a b ls none h = tt
Reused-behind a b ls (some ls') h = λ x. ground (arith, h x)

reuse-Reused : (n a : ℕ) (ls : List (Option ℕ)) → Reused a ls (reuse n a ls)
unfolding reuse
reuse-Reused n a [] = tt
reuse-Reused n a (none ∷ ls) = λ x. ground arith
reuse-Reused n a (some b ∷ ls) = elim (Bool-cases (ltb 3 n)) [
  | inl t ↦ rw (reuse, t) tt
  | inr t ↦ rw (reuse, t) (Reused-behind a b ls _ (reuse-Reused (suc n) a ls))
]

-- an entry that is freed
abbrev pub Released : Option ℕ → List (Option ℕ) → Option (List (Option ℕ)) → Type 0
Released a ls none = Unit
Released a ls (some ls') = (x : ℕ) → count x (held ls') + count x (listed a) ≡ count x (held ls)

Released-behind :
    (a l : Option ℕ) (ls : List (Option ℕ)) (o : Option (List (Option ℕ)))
    → Released a ls o
    → Released a (l ∷ ls) (map_option (λ ls'. l ∷ ls') o)
Released-behind a l ls none h = tt
Released-behind a none ls (some ls') h = h
Released-behind a (some b) ls (some ls') h = λ x. ground (arith, h x)

same-freed :
    (a l : Option ℕ) (ls : List (Option ℕ))
    → same a l ≡ true
    → Released a (l ∷ ls) (some (none ∷ ls))
same-freed none none ls h = λ x. omega arith
same-freed (some a) (some b) ls h = λ x. ground arith
same-freed none (some b) ls h = cc
same-freed (some a) none ls h = cc

pub release-Released : (a : Option ℕ) (ls : List (Option ℕ)) → Released a ls (release a ls)
unfolding release
release-Released a [] = tt
release-Released a (l ∷ ls) = elim (Bool-cases (same a l)) [
  | inl t ↦ rw (release, t) (same-freed a l ls t)
  | inr t ↦ rw (release, t) (Released-behind a l ls _ (release-Released a ls))
]

-- an outcome that keeps the balance and the limit of the pool
pub record Kept (p : Pool) (o : Outcome) : Type 0 where
  pub balanced : Balanced p o
  pub limit : o.pool.max ≡ p.max

small-Kept :
    (aligned : Bool) (fresh : Option ℕ) (p : Pool) (size : ℕ) → Kept p (small aligned fresh p size)
unfolding palloc_small palloc_block
small-Kept aligned fresh p size = record {
  balanced = small-Balanced aligned fresh p size;
  limit = limit_of fresh (search_from aligned size p.current p.blocks);
}
  where
    limit_of :
        (fresh : Option ℕ) (o : Option (ℕ × List Block))
        → (elim o as (λ _. Option ℕ × Pool) [
          | some r ↦ (some (r.0), record p { blocks = r.1 })
          | none ↦ palloc_block fresh p size
        ]).1.max
          ≡ p.max
    limit_of none none = refl
    limit_of (some a) none = refl
    limit_of fresh (some r) = refl

entered :
    (a : ℕ) (p : Pool) (node : Outcome) (given : Option ℕ)
    → node.answer ≡ given
    → Kept p node
    → Kept p (enter a node)
entered a p node none e h =
    rw e record { balanced = λ x. ground (arith, h.balanced x); limit = h.limit }
entered a p node (some l) e h = rw e record {
  balanced = λ x. ground (
    arith,
    h.balanced x,
    count-pool x node.pool,
    count-pool x (record (node.pool) { large = some a ∷ node.pool.large }),
  );
  limit = h.limit;
}

-- a call that keeps an entry in the pool
node-Kept :
    (k : ℕ) (sys : System) (a : ℕ) (p : Pool)
    → large_node ≤ p.max
    → Returns (Kept p) (palloc (suc k) sys true p large_node >>= λ node. ok (enter a node))
unfolding palloc
node-Kept k sys a p room =
    let fits : leb large_node p.max ≡ true = ground arith in
    rw fits (
      returns (
        entered a p (small true (sys.block k) p large_node) _ refl
          (small-Kept true (sys.block k) p large_node)))

pub unchanged-Kept :
    (p : Pool) → Kept p (record { answer = none; pool = p; taken = []; freed = [] })
unchanged-Kept p = record { balanced = λ x. omega arith; limit = refl }

large-Kept :
    (given : Option ℕ) (node : Run Outcome) (p : Pool)
    → ((a : ℕ) → Returns (Kept p) (node >>= λ o. ok (enter a o)))
    → Returns (Kept p) (palloc_large given node p)
large-Kept none node p h = returns (unchanged-Kept p)
large-Kept (some a) node p h = chosen (reuse 0 a p.large) (reuse-Reused 0 a p.large)
  where
    chosen :
        (o : Option (List (Option ℕ)))
        → Reused a p.large o
        → Returns (Kept p) (elim o as (λ _. Run Outcome) [
          | some ls ↦ ok (record {
            answer = some a;
            pool = record p { large = ls };
            taken = a ∷ [];
            freed = [];
          })
          | none ↦ node >>= λ o. ok (enter a o)
        ])
    chosen none r = h a
    chosen (some ls) r = returns record {
      balanced = λ x. omega (arith, r x, count-pool x p, count-pool x (record p { large = ls }));
      limit = refl;
    }

-- two nested calls are enough, if an entry is a small allocation
pub palloc-Kept :
    (k : ℕ) (sys : System) (aligned : Bool) (p : Pool) (size : ℕ)
    → large_node ≤ p.max
    → Returns (Kept p) (palloc (suc (suc k)) sys aligned p size)
unfolding palloc
palloc-Kept k sys aligned p size room =
    Returns-branch (leb size p.max) (λ _. returns (small-Kept aligned (sys.block (suc k)) p size))
      (λ _. large-Kept (sys.alloc (suc k)) _ p (λ a. node-Kept k sys a p room))

pub align-Kept :
    (sys : System) (given : Option ℕ) (p : Pool)
    → large_node ≤ p.max
    → Returns (Kept p) (pmemalign 1 sys given p)
unfolding pmemalign
align-Kept sys none p room = returns (unchanged-Kept p)
align-Kept sys (some a) p room = node-Kept 0 sys a p room
