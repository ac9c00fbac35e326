-- ===== src/Pool/Balance.antt =====
-- An allocation in the blocks of a pool: what the pool owned and what it takes from the system is what
-- it owns afterwards.
use mysqlproxy.Base.{
  ℕ, zero, suc, ◌+◌, ◌≡◌, ◌∙◌, refl, ap, inl, inr, Bool, Option, none, some, List, [], ◌∷◌, ◌++◌,
  arith, ◌==◌, if◌then◌else◌, Bool-cases,
}
use mysqlproxy.Pool.{
  block_header, align_ptr, Block, Pool, next_at, has_room, search, search_from, count_failures,
  count_from, block_size, palloc_block, palloc_small,
}
use mysqlproxy.Pool.Large.{Outcome, listed, taken_small, small, held, starts, destroy_pool}

-- how often an address is in a list
abbrev pub count : ℕ → List ℕ → ℕ
count x [] = 0
count x (y ∷ ys) = if x == y then suc (count x ys) else count x ys

pub count-append : (x : ℕ) (ys zs : List ℕ) → count x (ys ++ zs) ≡ count x ys + count x zs
count-append x [] zs = omega arith
count-append x (y ∷ ys) zs = ground (arith, count-append x ys zs)

-- the blocks of a pool are where they were
abbrev Placed : List Block → Option (ℕ × List Block) → Type 0
Placed bs none = Unit
Placed bs (some r) = starts r.1 ≡ starts bs

Placed-behind :
    (b : Block) (bs : List Block) (o : Option (ℕ × List Block))
    → Placed bs o
    → Placed
        (b ∷ bs)
        (elim o as (λ _. Option (ℕ × List Block)) [ none ↦ none | some r ↦ some (r.0, b ∷ r.1) ])
Placed-behind b bs none h = tt
Placed-behind b bs (some r) h = ap (λ l. b.start ∷ l) h

search-Placed : (aligned : Bool) (size : ℕ) (bs : List Block) → Placed bs (search aligned size bs)
unfolding search
search-Placed aligned size [] = tt
search-Placed aligned size (b ∷ bs) = elim (Bool-cases (has_room size b (next_at aligned b))) [
  | inl t ↦ rw (search, t) refl
  | inr t ↦ rw (search, t) (Placed-behind b bs _ (search-Placed aligned size bs))
]

from-Placed :
    (aligned : Bool) (size n : ℕ) (bs : List Block) → Placed bs (search_from aligned size n bs)
unfolding search_from
from-Placed aligned size zero bs = search-Placed aligned size bs
from-Placed aligned size (suc n) [] = tt
from-Placed aligned size (suc n) (b ∷ bs) = Placed-behind b bs _ (from-Placed aligned size n bs)

starts-failures : (n c : ℕ) (bs : List Block) → starts (count_failures n c bs).1 ≡ starts bs
unfolding count_failures
starts-failures n c [] = refl
starts-failures n c (b ∷ []) = refl
starts-failures n c (b ∷ d ∷ bs) = ap (λ l. b.start ∷ l) (starts-failures (suc n) _ (d ∷ bs))

starts-from : (k n c : ℕ) (bs : List Block) → starts (count_from k n c bs).1 ≡ starts bs
unfolding count_from
starts-from zero n c bs = starts-failures n c bs
starts-from (suc k) n c [] = refl
starts-from (suc k) n c (b ∷ bs) = ap (λ l. b.start ∷ l) (starts-from k (suc n) c bs)

starts-append : (bs cs : List Block) → starts (bs ++ cs) ≡ starts bs ++ starts cs
starts-append [] cs = refl
starts-append (b ∷ bs) cs = ap (λ l. b.start ∷ l) (starts-append bs cs)

-- what was owned and what was taken is what is owned and what was freed
abbrev pub Balanced : Pool → Outcome → Type 0
Balanced p o =
    (x : ℕ)
    → count x (destroy_pool o.pool) + count x o.freed ≡ count x (destroy_pool p) + count x o.taken

pub count-pool :
    (x : ℕ) (p : Pool)
    → count x (destroy_pool p) ≡ count x (held p.large) + count x (starts p.blocks)
unfolding destroy_pool
count-pool x p = count-append x (held p.large) (starts p.blocks)

count-snoc :
    (x : ℕ) (bs : List Block) (b : Block)
    → count x (starts (bs ++ b ∷ [])) ≡ count x (starts bs) + count x (b.start ∷ [])
count-snoc x bs b = ap (count x) (starts-append bs (b ∷ [])) ∙ count-append x (starts bs) _

block-Balanced :
    (fresh : Option ℕ) (p : Pool) (size x : ℕ)
    → count x (destroy_pool (palloc_block fresh p size).1)
      ≡ count x (destroy_pool p) + count x (listed fresh)
unfolding palloc_block
block-Balanced none p size x = omega arith
block-Balanced (some a) p size x =
    let r = count_from p.current 0 p.current p.blocks in
    omega (
      arith,
      count-pool x p,
      count-pool x (palloc_block (some a) p size).1,
      count-snoc x r.1 (record {
        start = a;
        last = align_ptr (a + block_header) + size;
        end = a + block_size p.blocks;
        failed = 0;
      }),
      ap (count x) (starts-from p.current 0 p.current p.blocks),
    )

found-Balanced :
    (fresh : Option ℕ) (p : Pool) (size x : ℕ) (o : Option (ℕ × List Block))
    → Placed p.blocks o
    → count x (
          destroy_pool
            (elim o as (λ _. Option ℕ × Pool) [
              | some r ↦ (some (r.0), record p { blocks = r.1 })
              | none ↦ palloc_block fresh p size
            ]).1)
        + 0
      ≡ count x (destroy_pool p)
        + count x (elim o as (λ _. List ℕ) [ some r ↦ [] | none ↦ listed fresh ])
found-Balanced fresh p size x none h = omega (arith, block-Balanced fresh p size x)
found-Balanced fresh p size x (some r) h =
    omega (arith, count-pool x p, count-pool x (record p { blocks = r.1 }), ap (count x) h)

pub small-Balanced :
    (aligned : Bool) (fresh : Option ℕ) (p : Pool) (size : ℕ)
    → Balanced p (small aligned fresh p size)
unfolding palloc_small taken_small
small-Balanced aligned fresh p size x =
    found-Balanced fresh p size x (search_from aligned size p.current p.blocks)
      (from-Placed aligned size p.current p.blocks)
