-- ===== src/Pool/Alloc.antt =====
-- `spy_palloc` and `spy_pnalloc` for sizes up to the pool's `max`.
use mysqlproxy.Base.{
  ℕ, ◌+◌, ◌%◌, ◌≤◌, ◌<◌, ◌≡◌, refl, Bool, Option, none, some, List, [], ◌∷◌, ◌++◌, arith,
}
use mysqlproxy.State.{word}
use mysqlproxy.Pool.{
  Block, Pool, align_ptr, block_header, pool_header, block_size, palloc_block, palloc_small,
}
use mysqlproxy.Pool.Small.{
  IsBlock, All, All-snoc, AreFull, Found, Found-All, Searched, nothing, found, from-Searched,
  Counted, from-Counted, Counted-All,
}

pub record IsPool (p : Pool) : Type 0 where
  pub good : All p.blocks
  pub whole_words : block_size p.blocks % 8 ≡ 0
  pub room : p.max + pool_header ≤ block_size p.blocks

-- what the system gives for a new block: an address that is aligned, with room behind it
pub record IsFresh (size : ℕ) (a : ℕ) : Type 0 where
  pub aligned : a % 16 ≡ 0
  pub below : a + size < word

-- what an allocation answers and leaves
pub data Allocated (aligned : Bool) (size : ℕ) (p : Pool) (fresh : Option ℕ)
    : Option ℕ × Pool → Type 0 where
  no_memory :
      fresh ≡ none
      → AreFull aligned size p.current p.blocks
      → Allocated aligned size p fresh (none, p)
  cut_off :
      {m : ℕ} {bs : List Block}
      → Found aligned size m p.blocks bs
      → All bs
      → Allocated aligned size p fresh (some m, record p { blocks = bs })
  new_block :
      {m current : ℕ} {bs : List Block} {b : Block}
      → AreFull aligned size p.current p.blocks
      → fresh ≡ some b.start
      → Counted p.blocks bs
      → (m % 8 ≡ 0) × (b.start + block_header ≤ m) × (b.last ≡ m + size)
      → IsBlock b
      → All (bs ++ b ∷ [])
      → Allocated aligned size p fresh
          (some m, record p { blocks = bs ++ b ∷ []; current = current })

block-Allocated :
    (aligned : Bool) (size : ℕ) (p : Pool) (fresh : Option ℕ)
    → IsPool p
    → size ≤ p.max
    → ((a : ℕ) → fresh ≡ some a → IsFresh (block_size p.blocks) a)
    → AreFull aligned size p.current p.blocks
    → Allocated aligned size p fresh (palloc_block fresh p size)
unfolding palloc_block
block-Allocated aligned size p none v small new h = no_memory refl h
block-Allocated aligned size p (some a) v small new h =
    let f = new a refl in
    let b : Block = record {
      start = a;
      last = align_ptr (a + block_header) + size;
      end = a + block_size p.blocks;
      failed = 0;
    } in
    let good : IsBlock b = record {
      inside = omega (arith, f.aligned, v.room);
      above = omega arith;
      aligned_end = omega (arith, f.aligned, v.whole_words);
      bounded = f.below;
    } in
    let counted = from-Counted p.current 0 p.current p.blocks in
    new_block h refl counted (omega arith, omega arith, refl) good
      (All-snoc (Counted-All v.good counted) good)

Searched-Allocated :
    {aligned : Bool} {size : ℕ} {p : Pool} {fresh : Option ℕ} {o : Option (ℕ × List Block)}
    {r : Option ℕ × Pool}
    → All p.blocks
    → (AreFull aligned size p.current p.blocks → Allocated aligned size p fresh r)
    → Searched aligned size p.current p.blocks o
    → Allocated aligned size p fresh (elim o as (λ _. Option ℕ × Pool) [
      | some x ↦ (some (x.0), record p { blocks = x.1 })
      | none ↦ r
    ])
Searched-Allocated good block (nothing h) = block h
Searched-Allocated good block (found f) = cut_off f (Found-All good f)

-- An allocation of at most `max` bytes takes them from the free end of one block, from a word boundary
-- on in `spy_palloc`, and leaves the other blocks as they were; or where no block from
-- `current` on has room, it takes them from the new block that the system gives, behind the others, of
-- which only the counters change, or, if the system gives none, answers NULL and changes nothing. Every block stays well-formed, so that nothing is handed out twice or beyond a block. This
-- holds for pools whose blocks end at word boundaries.
pub palloc_small-Allocated :
    (aligned : Bool) (size : ℕ) (p : Pool) (fresh : Option ℕ)
    → IsPool p
    → size ≤ p.max
    → ((a : ℕ) → fresh ≡ some a → IsFresh (block_size p.blocks) a)
    → Allocated aligned size p fresh (palloc_small aligned fresh p size)
unfolding palloc_small
palloc_small-Allocated aligned size p fresh v small new =
    Searched-Allocated v.good (block-Allocated aligned size p fresh v small new)
      (from-Searched aligned size p.current v.good)
