-- ===== src/Minheap/Leaf.antt =====
-- `spy_minheap_delete` at a position without children.
use mysqlproxy.Base.{
  none, some, ℕ, suc, ◌+◌, ◌-◌, ◌*◌, ◌<◌, ◌≤◌, ◌≡◌, refl, true, false, arith, ltb, ◌==◌,
}
use mysqlproxy.Base.Runs.{ok}
use mysqlproxy.Minheap.{Heap, done, delete, min, sift_down, placed}
use mysqlproxy.Minheap.Order.{load-ok, place-ok}

-- the heap with `n` nodes left, the last one of before at position `i`
abbrev pub cut : Heap → ℕ → ℕ → Heap
cut h n i = placed (record h { last = n }) i (h.slots n)

sift_down-leaf : (k : ℕ) (h : Heap) (i : ℕ) → h.last ≤ 2 * i + 1 → sift_down (suc k) h i ≡ ok (h, i)
unfolding sift_down
sift_down-leaf k h i p =
    let leaf : ltb (2 * i + 1) h.last ≡ false = ground arith in rw (sift_down, leaf) refl

pub delete-cut :
    (h : Heap) (n i : ℕ)
    → h.last ≡ suc n
    → n ≤ 2 * i + 1
    → n < h.capacity
    → i < h.capacity
    → delete h i ≡ ok (done, cut h n i)
unfolding delete
delete-cut h n i one_more small room inside =
    let some_left : (suc n == 0) ≡ false = ground arith in
    let fewer : suc n - 1 ≡ n = omega arith in
    rw
      (
        delete,
        one_more,
        some_left,
        fewer,
        sift_down-leaf n (record h { last = n }) i small,
        load-ok (record h { last = n }) n room,
        place-ok (record h { last = n }) i (h.slots n) inside,
      )
      refl

-- `spy_minheap_min` gives the node at position 1
pub min-second : (h : Heap) → 0 < h.last → 1 < h.capacity → min h ≡ ok (some (h.slots 1))
unfolding min
min-second h p q =
    let some_left : (h.last == 0) ≡ false = ground arith in rw (some_left, load-ok h 1 q) refl

pub min-none : (h : Heap) → h.last ≡ 0 → min h ≡ ok none
unfolding min
min-none h p = let none_left : (h.last == 0) ≡ true = ground arith in rw none_left refl
