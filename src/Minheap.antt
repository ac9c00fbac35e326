-- ===== src/Minheap.antt =====
-- core/spy_minheap.c and core/spy_minheap.h: the binary heap of timer nodes. The heap holds
-- pointers to nodes that lie inside events, and every node keeps its own position.
pub mod Order
pub mod Insert
pub mod Fall
pub mod Delete
pub mod Limits
pub mod Leaf
mod Tests
use mysqlproxy.Base.{
  ℕ, zero, suc, ◌+◌, ◌-◌, ◌*◌, ◌/◌, Option, none, some, Bool, ltb, leb, ◌==◌, if◌then◌else◌, update,
}
use mysqlproxy.Base.Runs.{Run, ok, fault, out_of_fuel, ◌>>=◌}

pub record Node : Type 0 where
  pub key : ℕ
  pub index : ℕ

-- `node[]` has `capacity` entries. Nodes are named by their addresses, and `nodes` is the memory
-- that holds them.
pub record Heap : Type 0 where
  pub root : ℕ
  pub last : ℕ
  pub max_num : ℕ
  pub capacity : ℕ
  pub slots : ℕ → ℕ
  pub nodes : ℕ → Node

pub data Status : Type 0 where
  done : Status
  error : Status

abbrev pub key : Heap → ℕ → ℕ
key h x = (h.nodes x).key

abbrev pub index : Heap → ℕ → ℕ
index h x = (h.nodes x).index

-- At 0 the source's `(index - 1) / 2` wraps, but there it is not read.
abbrev pub parent : ℕ → ℕ
parent i = (i - 1) / 2

abbrev pub full : Heap → Bool
full h = h.max_num == h.last

abbrev pub empty : Heap → Bool
empty h = h.last == 0

-- `heap->node[i]`
pub load : Heap → ℕ → Run ℕ
load h i = if ltb i h.capacity then ok (h.slots i) else fault

-- the heap with node `x` at position `i`
abbrev pub placed : Heap → ℕ → ℕ → Heap
placed h i x = record h {
  slots = update h.slots i x;
  nodes = update h.nodes x (record { key = key h x; index = i });
}

-- `(heap->node[i] = x)->index = i`
pub place : Heap → ℕ → ℕ → Run Heap
place h i x = if ltb i h.capacity then ok (placed h i x) else fault

-- `spy_minheap_init`: room for ten pointers, whatever `max_num` is. The array is not cleared.
unfoldable pub init : Heap → ℕ → Heap
init h max_num = record h { root = 0; last = 0; max_num = max_num; capacity = 10 }

-- `spy_minheap_min`
unfoldable pub min : Heap → Run (Option ℕ)
unfolding load
min h = if empty h then ok none else (do x ← load h 1; ok (some x))

-- the `while` of `spy_minheap_insert`: parents above position `i` sink while they exceed the node
pub sift_up : ℕ → Heap → ℕ → ℕ → Run (Heap × ℕ)
sift_up zero h x i = out_of_fuel
sift_up (suc k) h x i =
    let rise = λ (p : ℕ). place h i p >>= λ h'. sift_up k h' x (parent i) in
    let step = load h (parent i) >>= λ p. if ltb (key h x) (key h p) then rise p else ok (h, i) in
    if i == 0 then ok (h, i) else step

unfoldable pub insert : Heap → ℕ → ℕ → Run (Status × Heap)
unfolding sift_up load place
insert h x i = if full h then ok (error, h) else do
  (h', j) ← sift_up (suc i) (record h { last = h.last + 1 }) x i
  h'' ← place h' j x
  ok (done, h'')

-- the child that `spy_minheap_delete` compares with: the right one only if it is smaller
pub smaller_child : Heap → ℕ → Run ℕ
unfolding load
smaller_child h child =
    let compared = do
      l ← load h child
      r ← load h (child + 1)
      ok (if ltb (key h r) (key h l) then child + 1 else child)
    in if ltb child (h.last - 1) then compared else ok child

-- the `while` of `spy_minheap_delete`: smaller children rise over position `i`
pub sift_down : ℕ → Heap → ℕ → Run (Heap × ℕ)
sift_down zero h i = out_of_fuel
sift_down (suc k) h i =
    let sink = λ (c x : ℕ). place h i x >>= λ h'. sift_down k h' c in
    let step : Run (Heap × ℕ) = do
      c ← smaller_child h (2 * i + 1)
      moving ← load h h.last
      x ← load h c
      if leb (key h moving) (key h x) then ok (h, i) else sink c x
    in if ltb (2 * i + 1) h.last then step else ok (h, i)

-- Each round at least doubles the position, so `last` rounds are more than enough.
unfoldable pub delete : Heap → ℕ → Run (Status × Heap)
unfolding sift_down smaller_child load place
delete h i = if empty h then ok (error, h) else do
  (h', j) ← sift_down h.last (record h { last = h.last - 1 }) i
  moving ← load h' h'.last
  h'' ← place h' j moving
  ok (done, h'')
