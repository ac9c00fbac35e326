-- ===== src/Pool/Overrun.antt =====
-- `spy_palloc` in a block that does not end at a word boundary.
use mysqlproxy.Base.{ℕ, ◌+◌, ◌-◌, ◌%◌, ◌≤◌, ◌<◌, ◌≡◌, refl, true, Option, some, List, ◌∷◌, arith}
use mysqlproxy.State.{word}
use mysqlproxy.Pool.{Block, Pool, align_ptr, has_room, search, search_from, palloc_small}

-- a pool in which searching begins at the first block
abbrev pub begun : Block → List Block → ℕ → List (Option ℕ) → Pool
begun b bs max large = record { blocks = b ∷ bs; current = 0; max = max; large = large }

search-beyond :
    (size : ℕ) (b : Block) (bs : List Block)
    → has_room size b (align_ptr b.last) ≡ true
    → search true size (b ∷ bs)
      ≡ some (align_ptr b.last, record b { last = align_ptr b.last + size } ∷ bs)
unfolding search
search-beyond size b bs t = rw t refl

small-beyond :
    (size : ℕ) (fresh : Option ℕ) (b : Block) (bs : List Block) (max : ℕ) (large : List (Option ℕ))
    → has_room size b (align_ptr b.last) ≡ true
    → (palloc_small true fresh (begun b bs max large) size).0 ≡ some (align_ptr b.last)
unfolding palloc_small search_from
small-beyond size fresh b bs max large t =
    rw (palloc_small, search_from, search-beyond size b bs t) refl

-- In a block whose free end is shorter than the way to the next word boundary, `spy_palloc` gives
-- memory beyond the block, for any size of less than `2 ^ 64 - 8`: the room that it computes wraps.
pub palloc_small-beyond :
    (size : ℕ) (fresh : Option ℕ) (b : Block) (bs : List Block) (max : ℕ) (large : List (Option ℕ))
    → b.last ≤ b.end
    → b.end < align_ptr b.last
    → align_ptr b.last < word
    → size + 8 < word
    → (m : ℕ) × ((palloc_small true fresh (begun b bs max large) size).0 ≡ some m) × (b.end < m)
palloc_small-beyond size fresh b bs max large inside short below small =
    let wrapped : (b.end + word - align_ptr b.last) % word ≡ b.end + word - align_ptr b.last =
      omega arith in
    (align_ptr b.last, small-beyond size fresh b bs max large (ground (arith, wrapped)), short)
