-- ===== src/Minheap/Limits.antt =====
-- Where the heap's operations refuse, fault, or answer with another node than the least one.
use native.Mathlib.Decide.{ℕ_discrete}
use mysqlproxy.Base.{false, ℕ, ◌<◌, ◌≡◌, refl, ◌≢◌, ◌↔◌, ◌⊎◌, inl, inr, some, arith, ltb, ◌==◌}
use mysqlproxy.Base.Runs.{ok, fault, Returns, returns, Returns-inv}
use mysqlproxy.Minheap.{
  Heap, error, key, parent, full, empty, load, place, sift_up, init, min, insert, delete,
}
use mysqlproxy.Minheap.Order.{Live, IsPlaced, IsValid, load-ok}
use mysqlproxy.Minheap.Insert.{insert-Inserted}
use mysqlproxy.Minheap.Delete.{delete-Removed}

-- The array has ten entries whatever `max_num` is: an insertion into a heap that fills the array, and
-- that may hold more nodes, writes outside of it.
pub insert-fault :
    {h : Heap} (x : ℕ)
    → IsPlaced h
    → 0 < h.last
    → h.capacity ≡ (init h h.max_num).capacity
    → h.last ≡ h.capacity
    → h.last < h.max_num
    → insert h x h.last ≡ fault
unfolding insert sift_up load place init
insert-fault {h} x v some_node cap at below =
    let e : full h ≡ false = ground arith in
    let l : ltb h.last h.capacity ≡ false = ground arith in
    let u : (h.last == 0) ≡ false = ground arith in
    rw (e, u) (ground (arith, load-ok h (parent h.last) (omega arith)))

module _ {h : Heap} where
  insert_full : (x : ℕ) → h.last ≡ h.max_num → insert h x h.last ≡ ok (error, h)
  unfolding insert
  insert_full x e = ground arith

  insert-error :
      (x : ℕ)
      → IsPlaced h
      → h.last < h.capacity
      → ¬ Live h x
      → insert h x h.last ≡ ok (error, h)
      → h.last ≡ h.max_num
  insert-error x v room absent e = elim (ℕ_discrete h.last h.max_num) [
    | yes t ↦ t
    | no t ↦
        let (r, e', s) = Returns-inv (insert-Inserted v absent (omega (arith, v.bounded)) room) in
        absurd (ground (arith, s.succeeded))
  ]

  delete_empty : (i : ℕ) → h.last ≡ 0 → delete h i ≡ ok (error, h)
  unfolding delete
  delete_empty i e = ground arith

  delete-error :
      (i : ℕ) → IsPlaced h → ((i < h.last) ⊎ (h.last ≡ 0)) → delete h i ≡ ok (error, h) → h.last ≡ 0
  delete-error i v (inr t) e = t
  delete-error i v (inl t) e =
      let (r, e', s) = Returns-inv (delete-Removed v t) in absurd (ground (arith, s.succeeded))

first : (h : Heap) → 0 < h.last → empty h ≡ false
first h p = ground arith

-- An operation that cannot succeed says so and changes nothing: an insertion exactly at `max_num`
-- nodes, a deletion exactly from the empty heap.
pub refused :
    {h : Heap} (x i : ℕ)
    → IsPlaced h
    → h.last < h.capacity
    → ¬ Live h x
    → ((i < h.last) ⊎ (h.last ≡ 0))
    → ((insert h x h.last ≡ ok (error, h)) ↔ (h.last ≡ h.max_num))
      × ((delete h i ≡ ok (error, h)) ↔ (h.last ≡ 0))
refused {h} x i v room absent inside =
    ((insert-error x v room absent, insert_full x), (delete-error i v inside, delete_empty i))

-- `spy_minheap_min` reads position 1, while the root is position 0. With two nodes or more it
-- returns a node whose key is not the least unless the keys at these positions are equal.
pub min-not-least :
    {h : Heap}
    → IsValid h
    → 1 < h.last
    → key h (h.slots 0) ≢ key h (h.slots 1)
    → Returns
        (λ o. (x : ℕ) × (y : ℕ) × (o ≡ some x) × Live h x × Live h y × (key h y < key h x))
        (min h)
unfolding min load
min-not-least {h} v more ne =
    let placing = v.placing in
    rw (first h (omega arith), load-ok h 1 (omega (arith, placing.fits)))
      (returns (
        h.slots 1,
        h.slots 0,
        refl,
        ground (arith, placing.indexed 1),
        ground (arith, placing.indexed 0),
        ground (arith, v.ordered 1),
      ))

-- With exactly one node it returns a node that is not in the heap, unless the unused position 1
-- happens to hold that node too.
pub min-not-Live :
    {h : Heap}
    → IsPlaced h
    → 1 < h.capacity
    → h.last ≡ 1
    → h.slots 1 ≢ h.slots 0
    → Returns (λ o. (x : ℕ) × (o ≡ some x) × (¬ Live h x)) (min h)
unfolding min load
min-not-Live {h} v room one ne =
    rw (first h (omega arith), load-ok h 1 room)
      (returns (h.slots 1, refl, λ l. ground (arith, v.indexed 0)))
