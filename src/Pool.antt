-- ===== src/Pool.antt =====
-- core/spy_palloc.c: memory pools. A pool is the list of its blocks from the first one on, with the
-- number of the one where searching begins; addresses are numbers, and what the system's allocators
-- give is a parameter.
pub mod Small
pub mod Alloc
pub mod Overrun
pub mod Large
pub mod Balance
pub mod Kept
pub mod History
pub mod First
pub mod Tests
use mysqlproxy.Base.{
  ℕ, zero, suc, ◌+◌, ◌-◌, ◌*◌, ◌/◌, ◌%◌, Bool, true, false, Option, none, some, List, [], ◌∷◌, ◌++◌,
  ltb, leb, ◌==◌, if◌then◌else◌,
}
use mysqlproxy.State.{word}

-- `spy_pool_data_t` of a block at the address `start`
pub record Block : Type 0 where
  pub start : ℕ
  pub last : ℕ
  pub end : ℕ
  pub failed : ℕ

-- `spy_pool_s`; `large` lists the large allocations, `none` where `alloc` is NULL
pub record Pool : Type 0 where
  pub blocks : List Block
  pub current : ℕ
  pub max : ℕ
  pub large : List (Option ℕ)

-- `sizeof(spy_pool_t)` and `sizeof(spy_pool_data_t)`, of eight and four words
abbrev pub pool_header : ℕ
pool_header = 64

abbrev pub block_header : ℕ
block_header = 32

-- `spy_align_ptr(p, SPY_ALIGNMENT)`
abbrev pub align_ptr : ℕ → ℕ
align_ptr p = (p + 7) / 8 * 8

-- `spy_create_pool`, with the page size
abbrev pub create_pool : ℕ → Option ℕ → ℕ → Option Pool
create_pool page none size = none
create_pool page (some p) size =
    let room = (size + word - pool_header) % word in
    some (record {
      blocks = record { start = p; last = p + pool_header; end = p + size; failed = 0 } ∷ [];
      current = 0;
      max = if ltb room (page - 1) then room else page - 1;
      large = [];
    })

-- where the next allocation in a block begins: aligned in `spy_palloc`, not in `spy_pnalloc`
abbrev pub next_at : Bool → Block → ℕ
next_at aligned b = if aligned then align_ptr b.last else b.last

-- `(size_t) (p->d.end - m) >= size`
abbrev pub has_room : ℕ → Block → ℕ → Bool
has_room size b m = leb size ((b.end + word - m) % word)

-- the loop of `spy_palloc` and `spy_pnalloc`
pub search : Bool → ℕ → List Block → Option (ℕ × List Block)
search aligned size [] = none
search aligned size (b ∷ bs) =
    let m = next_at aligned b in
    let behind = elim (search aligned size bs) as (λ _. Option (ℕ × List Block)) [
      | none ↦ none
      | some r ↦ some (r.0, b ∷ r.1)
    ] in
    if has_room size b m then some (m, record b { last = m + size } ∷ bs) else behind

-- the loop, begun at block number `n`
pub search_from : Bool → ℕ → ℕ → List Block → Option (ℕ × List Block)
unfolding search
search_from aligned size zero bs = search aligned size bs
search_from aligned size (suc n) [] = none
search_from aligned size (suc n) (b ∷ bs) =
    elim (search_from aligned size n bs) as (λ _. Option (ℕ × List Block)) [
      | none ↦ none
      | some r ↦ some (r.0, b ∷ r.1)
    ]

-- the loop of `spy_palloc_block`, from block number `n` on: all but the last block count a failure,
-- and `current` moves on behind one that has failed often
pub count_failures : ℕ → ℕ → List Block → ℕ × List Block
count_failures n current [] = (current, [])
count_failures n current (b ∷ []) = (current, b ∷ [])
count_failures n current (b ∷ c ∷ bs) =
    let rest = count_failures (suc n) (if ltb 4 b.failed then suc n else current) (c ∷ bs) in
    (rest.0, record b { failed = b.failed + 1 } ∷ rest.1)

-- the same, begun at block number `k`
pub count_from : ℕ → ℕ → ℕ → List Block → ℕ × List Block
unfolding count_failures
count_from zero n current bs = count_failures n current bs
count_from (suc k) n current [] = (current, [])
count_from (suc k) n current (b ∷ bs) =
    let rest = count_from k (suc n) current bs in (rest.0, b ∷ rest.1)

-- the size of the first block
abbrev pub block_size : List Block → ℕ
block_size [] = 0
block_size (b ∷ bs) = b.end - b.start

-- `spy_palloc_block`, where `fresh` is the new block's address
unfoldable pub palloc_block : Option ℕ → Pool → ℕ → Option ℕ × Pool
unfolding count_from
palloc_block none p size = (none, p)
palloc_block (some a) p size =
    let m = align_ptr (a + block_header) in
    let r = count_from p.current 0 p.current p.blocks in
    let new : Block = record {
      start = a;
      last = m + size;
      end = a + block_size p.blocks;
      failed = 0;
    } in
    (some m, record p { blocks = r.1 ++ new ∷ []; current = r.0 })

-- `spy_palloc` and `spy_pnalloc` for a size of at most `max`
unfoldable pub palloc_small : Bool → Option ℕ → Pool → ℕ → Option ℕ × Pool
unfolding search_from palloc_block
palloc_small aligned fresh p size = elim (search_from aligned size p.current p.blocks) [
  | some r ↦ (some (r.0), record p { blocks = r.1 })
  | none ↦ palloc_block fresh p size
]
