-- ===== src/Arrays/Push.antt =====
-- Pushing to an array keeps its elements, and gives room behind them.
use mysqlproxy.Base.{
  ℕ, suc, ◌+◌, ◌*◌, ◌%◌, ◌≤◌, ◌<◌, ◌≡◌, refl, true, Option, none, some, List, [], ◌∷◌, arith, leb,
  ◌==◌, if◌then◌else◌,
}
use mysqlproxy.Base.Runs.{Returns-inv, ok, Returns, returns, Returns-branch}
use mysqlproxy.State.{word}
use mysqlproxy.Text.Pad.{copy-inside}
use mysqlproxy.Pool.{block_size}
use mysqlproxy.Pool.Alloc.{IsPool}
use mysqlproxy.Pool.Large.{System, Outcome, palloc, large_node}
use mysqlproxy.Pool.Kept.{palloc-Kept}
use mysqlproxy.Arrays.{
  set_last, Block, Array, Place, first_last, first_end, bytes_of, can_extend, extended, moved,
  Pushing, element, no_memory, append, append_moved, push, push_n,
}

-- the array's elements fit in its room, which can grow by `n` elements and double without wrapping
pub record IsArray (n : ℕ) (a : Array) : Type 0 where
  pub within : a.nelts ≤ a.nalloc
  pub small : 2 * ((a.nalloc + n) * a.size) < word

-- where the room of the array in `s'` comes from
pub data Room (k : ℕ) (sys : System) (s s' : Place) : Type 0 where
  same_room :
      (s'.array.elts ≡ s.array.elts) × (s'.array.nalloc ≡ s.array.nalloc) × (s'.pool ≡ s.pool)
      → Room k sys s s'
  longer :
      (s'.array.elts ≡ s.array.elts)
        × (first_last s'.pool.blocks ≡ s'.array.elts + s'.array.nalloc * s'.array.size)
        × (first_last s'.pool.blocks ≤ first_end s'.pool.blocks)
      → Room k sys s s'
  allocated :
      (o : Outcome)
      → (palloc k sys true s.pool (s'.array.nalloc * s'.array.size) ≡ ok o)
        × (o.answer ≡ some s'.array.elts)
        × (s'.pool ≡ o.pool)
      → Room k sys s s'

-- what pushing `n` elements gives
pub data Grown (k : ℕ) (sys : System) (n : ℕ) (s : Place) : Pushing → Type 0 where
  full :
      (size : ℕ) (o : Outcome)
      → s.array.nalloc < s.array.nelts + n
      → palloc k sys true s.pool size ≡ ok o
      → o.answer ≡ none
      → Grown k sys n s (no_memory o.pool)
  pushed :
      (s' : Place)
      → (s'.array.nelts ≡ s.array.nelts + n)
        × (s'.array.size ≡ s.array.size)
        × (s'.array.nelts ≤ s'.array.nalloc)
      → Room k sys s s'
      → ((j : ℕ)
          → j < s.array.nelts * s.array.size
          → s'.mem (s'.array.elts + j) ≡ s.mem (s.array.elts + j))
      → Grown k sys n s (element (s'.array.elts + s.array.size * s.array.nelts) s')

first-set_last :
    (bs : List Block) (l : ℕ)
    → 0 < block_size bs
    → (first_last (set_last bs l) ≡ l) × (first_end (set_last bs l) ≡ first_end bs)
first-set_last [] l h = absurd (omega arith)
first-set_last (b ∷ bs) l h = (refl, refl)

distrib : (a n size : ℕ) → (a + n) * size ≡ a * size + n * size
distrib a n size = grind arith

le-size : (a b size : ℕ) → a ≤ b → a * size ≤ b * size
le-size a b size h = grind arith

doubled : (x size : ℕ) → 2 * x * size ≡ 2 * (x * size)
doubled x size = grind arith

exact :
    (a n size x : ℕ) → x ≤ a + n → 2 * ((a + n) * size) < word → 2 * x * size % word ≡ 2 * x * size
exact a n size x h small = omega (arith, doubled x size, le-size x (a + n) size h)

module _ (k : ℕ) (sys : System) (n : ℕ) (s : Place) where
  moved-Grown :
      (nalloc size len : ℕ) (o : Outcome)
      → s.array.nelts + n ≤ nalloc
      → s.array.nelts * s.array.size ≤ len
      → size ≡ nalloc * s.array.size
      → palloc k sys true s.pool size ≡ ok o
      → s.array.nalloc < s.array.nelts + n
      → Grown k sys n s (append_moved o (moved s o nalloc len) n)
  moved-Grown nalloc size len o room all t e no_room = by_answer (o.answer) refl
    where
      by_answer :
          (a : Option ℕ) → o.answer ≡ a → Grown k sys n s (append_moved o (moved s o nalloc len) n)
      by_answer none f = rw f (full size o no_room e f)
      by_answer (some a) f = rw f (
          pushed _ (refl, refl, room) (allocated o (rw (← t) e, f, refl))
            λ j h.
              copy-inside s.mem a (λ i. s.mem (s.array.elts + i)) len j (omega (arith, h, all)))

  inside-Grown : s.array.nelts + n ≤ s.array.nalloc → Grown k sys n s (append s n)
  inside-Grown h =
      pushed (record s { array = record (s.array) { nelts = s.array.nelts + n } }) (refl, refl, h)
        (same_room (refl, refl, refl)) λ j p. refl

  extended-Grown :
      (more : ℕ)
      → IsPool s.pool
      → IsArray n s.array
      → more ≡ n * s.array.size
      → can_extend s more ≡ true
      → Grown k sys n s (append (extended s n more) n)
  extended-Grown more v w t h =
      let (l, e) =
        first-set_last s.pool.blocks (first_last s.pool.blocks + more) (omega (arith, v.room)) in
      let sum = distrib s.array.nalloc n s.array.size in
      let here : s.array.elts + s.array.nalloc * s.array.size ≡ first_last s.pool.blocks =
        ground (arith, sum, w.small) in
      pushed _ (refl, refl, omega (arith, w.within))
        (longer (refl, omega (arith, l, here, sum, t), ground (arith, e, l))) λ j p. refl

-- Pushing one element to an array with room for one at least returns. It gives no element only if the array is full and
-- the allocation in the pool has given nothing, and otherwise the pointer that is given is the end of the elements, the array has one more,
-- in room that it had, that it has at the end of the pool's first block, or that it has been
-- allocated, and the bytes of the other elements are kept, wherever the array has moved. This holds
-- for sizes that do not wrap when they double.
pub push-Grown :
    (k : ℕ) (sys : System) (s : Place)
    → IsPool s.pool
    → large_node ≤ s.pool.max
    → IsArray 1 s.array
    → 0 < s.array.nalloc
    → Returns (Grown (suc (suc k)) sys 1 s) (push (suc (suc k)) sys s)
unfolding push
push-Grown k sys s v node w some_room =
    let size = bytes_of s.array.nalloc s.array.size in
    let sum = distrib s.array.nalloc 1 s.array.size in
    Returns-branch (s.array.nelts == s.array.nalloc)
      (λ at_end.
        Returns-branch (can_extend s s.array.size)
          (λ t. returns (extended-Grown (suc (suc k)) sys 1 s s.array.size v w (omega arith) t))
          (λ _.
            let (o, e, _) = Returns-inv (palloc-Kept k sys true s.pool (2 * size % word) node) in
            rw e (
              returns (
                moved-Grown (suc (suc k)) sys 1 s (2 * s.array.nalloc) (2 * size % word) size o
                  (omega (arith, w.within, some_room))
                  (ground (
                    arith,
                    le-size s.array.nelts s.array.nalloc s.array.size w.within,
                    sum,
                    w.small,
                  ))
                  (omega (arith, doubled s.array.nalloc s.array.size, sum, w.small)) e
                  (ground (arith, at_end))))))
      (λ inside. returns (inside-Grown (suc (suc k)) sys 1 s (ground (arith, w.within))))

-- The same of pushing `n` elements, also to an array that has no room yet.
pub push_n-Grown :
    (k : ℕ) (sys : System) (s : Place) (n : ℕ)
    → IsPool s.pool
    → large_node ≤ s.pool.max
    → IsArray n s.array
    → Returns (Grown (suc (suc k)) sys n s) (push_n (suc (suc k)) sys s n)
unfolding push_n
push_n-Grown k sys s n v node w =
    let sum = distrib s.array.nalloc n s.array.size in
    let nalloc = 2 * (if leb s.array.nalloc n then n else s.array.nalloc) in
    Returns-branch (leb (s.array.nelts + n) s.array.nalloc)
      (λ inside. returns (inside-Grown (suc (suc k)) sys n s (ground arith)))
      (λ at_end.
        Returns-branch (can_extend s (bytes_of n s.array.size))
          (λ t.
            returns (extended-Grown (suc (suc k)) sys n s _ v w (omega (arith, sum, w.small)) t))
          (λ _.
            let (o, e, _) =
              Returns-inv (palloc-Kept k sys true s.pool (bytes_of nalloc s.array.size) node) in
            rw e (
              returns (
                moved-Grown (suc (suc k)) sys n s nalloc _ (bytes_of s.array.nelts s.array.size) o
                  (ground (arith, w.within))
                  (omega (
                    arith,
                    le-size s.array.nelts s.array.nalloc s.array.size w.within,
                    sum,
                    w.small,
                  ))
                  (exact s.array.nalloc n s.array.size
                    (if leb s.array.nalloc n then n else s.array.nalloc) (ground arith) w.small)
                  e (ground (arith, at_end))))))
