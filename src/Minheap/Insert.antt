-- ===== src/Minheap/Insert.antt =====
-- `spy_minheap_insert` at the end of the heap.
use native.Mathlib.Decide.{ℕ_discrete}
use mysqlproxy.Base.{
  ℕ, zero, suc, ◌+◌, ◌≤◌, ◌<◌, ◌≡◌, refl, ◌≢◌, ◌↔◌, ◌⊎◌, inl, inr, arith, ltb, ◌==◌,
}
use mysqlproxy.Base.Runs.{ok, Returns, returns, Returns-then, Returns-branch, ◌>>=◌}
use mysqlproxy.Minheap.{Heap, Status, done, key, parent, full, place, placed, sift_up, insert}
use mysqlproxy.Minheap.Order.{IsOrdered, Live, IsPlaced, Hole, Hole-moved, load-ok, place-ok}

-- node `x` waits for the hole at `i`, and is no greater than what stands below it
record Rising (g : Heap) (a : ℕ) (x : ℕ) (h : Heap) (i : ℕ) : Type 0 where
  hole : Hole g a h h.last i
  absent : (j : ℕ) → j < h.last → j ≢ i → h.slots j ≢ x
  edges :
      IsOrdered g a
      → (c : ℕ) → 0 < c
      → c < h.last
      → c ≢ i
      → parent c ≢ i
      → key h (h.slots (parent c)) ≤ key h (h.slots c)
  under : IsOrdered g a → (c : ℕ) → 0 < c → c < h.last → parent c ≡ i → key h x ≤ key h (h.slots c)
  bridged :
      IsOrdered g a
      → (c : ℕ) → 0 < c
      → c < h.last
      → parent c ≡ i
      → 0 < i
      → key h (h.slots (parent i)) ≤ key h (h.slots c)

-- the hole has reached the place of `x`
abbrev Settled : Heap → ℕ → ℕ → Type 0
Settled h x i = 0 < i → key h (h.slots (parent i)) ≤ key h x

module _ {g h : Heap} {a x i : ℕ} (v : Rising g a x h i) (up : 0 < i)
    (less : key h x < key h (h.slots (parent i))) where
  Rising-step : Rising g a x (placed h i (h.slots (parent i))) (parent i)
  Rising-step =
      let inside = v.hole.inside in
      record {
        hole = Hole-moved v.hole (parent i) (omega arith) (omega arith);
        absent = λ j p q. ground (arith, v.absent j, v.absent (parent i));
        edges = λ o c p q r s. ground (arith, v.edges o c, v.bridged o c);
        under = λ o c p q r. ground (arith, v.edges o c);
        bridged = λ o c p q r s. ground (arith, v.edges o c, v.edges o (parent i));
      }

abbrev Risen : Heap → ℕ → ℕ → Heap × ℕ → Type 0
Risen g a x (h, i) = Rising g a x h i × Settled h x i

sift_up-Risen :
    (k : ℕ) {g h : Heap} {a x i : ℕ}
    → i < k
    → Rising g a x h i
    → Returns (Risen g a x) (sift_up k h x i)
unfolding sift_up
sift_up-Risen zero f v = absurd (omega arith)
sift_up-Risen (suc k) {g} {h} {a} {x} {i} f v =
    let inside = v.hole.inside in
    let room = v.hole.room in
    Returns-branch (i == 0) (λ e. returns (v, ground arith))
      λ up. rw (load-ok h (parent i) (omega arith)) (
        Returns-branch (ltb (key h x) (key h (h.slots (parent i))))
          (λ e.
            rw (place-ok h i (h.slots (parent i)) (omega arith))
              (sift_up-Risen k (ground arith) (Rising-step v (ground arith) (ground arith))))
          (λ e. returns (v, ground arith)))

-- the heap `h` with node `x` added
pub record Inserted (h : Heap) (x : ℕ) (r : Status × Heap) : Type 0 where
  pub succeeded : r.0 ≡ done
  pub placing : IsPlaced r.1
  pub ordered : IsOrdered h h.last → IsOrdered r.1 r.1.last
  pub one_more : r.1.last ≡ h.last + 1
  pub same_keys : (y : ℕ) → key r.1 y ≡ key h y
  pub members : (y : ℕ) → Live r.1 y ↔ ((y ≡ x) ⊎ Live h y)
  pub same_max : r.1.max_num ≡ h.max_num
  pub same_capacity : r.1.capacity ≡ h.capacity

abbrev grown : Heap → Heap
grown h = record h { last = h.last + 1 }

module _ {h : Heap} {x : ℕ} (v : IsPlaced h) (absent : ¬ Live h x) (below : h.last < h.max_num)
    (room : h.last < h.capacity) where
  start : Rising (grown h) h.last x (grown h) h.last
  start = record {
    hole = record {
      inside = omega arith;
      room = omega arith;
      indexed = λ j p q. v.indexed j (omega arith);
      same_keys = λ y. refl;
      kept = λ y e. e;
      none_added = λ y e. e;
      same_last = refl;
      same_max = refl;
      same_capacity = refl;
    };
    absent = λ j p q e. absent (ground (arith, v.indexed j));
    edges = λ o c p q r s. o c p (omega arith);
    under = λ o c p q r. absurd (omega arith);
    bridged = λ o c p q r. absurd (omega arith);
  }

  module _ {g : Heap} {i : ℕ} (r : Rising (grown h) h.last x g i) (s : Settled g x i) where
    settled-IsOrdered : IsOrdered h h.last → IsOrdered (placed g i x) g.last
    settled-IsOrdered o c p q = ground (arith, r.edges o c, r.under o c, s)

    settled-IsPlaced : IsPlaced (placed g i x)
    settled-IsPlaced =
        let hole = r.hole in
        record {
          indexed = λ j p. ground (arith, hole.indexed j, r.absent j);
          fits = hole.room;
          bounded = omega (arith, hole.same_max, hole.same_last);
        }

    settled-old : (y : ℕ) → Live (placed g i x) y → y ≢ x → Live h y
    settled-old y l ne =
        let e = r.hole.none_added y (ground (arith, r.absent)) in ground (arith, r.hole.same_last)

    settled-new : (y : ℕ) → Live h y → Live (placed g i x) y
    settled-new y l =
        let e = r.hole.kept y (ground (arith, r.hole.same_last)) in ground (arith, absent)

    settled_self : Live (placed g i x) x
    settled_self = ground (arith, r.hole.inside)

    settled-members : (y : ℕ) → Live (placed g i x) y ↔ ((y ≡ x) ⊎ Live h y)
    settled-members y = (
      λ l. elim (ℕ_discrete y x) [ yes e ↦ inl e | no ne ↦ inr (settled-old y l ne) ],
      elim [ inl e ↦ rw e settled_self | inr l ↦ settled-new y l ],
    )

  settled-Inserted :
      (p : Heap × ℕ)
      → Risen (grown h) h.last x p
      → Returns (Inserted h x) (place p.0 p.1 x >>= λ h'. ok (done, h'))
  settled-Inserted (g, i) (r, s) =
      let hole = r.hole in
      rw (place-ok g i x (omega (arith, hole.inside, hole.room))) (
        returns (record {
          succeeded = refl;
          placing = settled-IsPlaced r s;
          ordered = λ o c p q. settled-IsOrdered r s o c p q;
          one_more = hole.same_last;
          same_keys = λ y. ground (arith, hole.same_keys y, hole.same_keys x);
          members = settled-members r s;
          same_max = hole.same_max;
          same_capacity = hole.same_capacity;
        }))

-- Inserting a node that is not in the heap, at its end and with room, succeeds: the result holds the
-- same nodes and that one, every node knows its position, no key changes, and the heap is in order if
-- it was before.
pub insert-Inserted :
    {h : Heap} {x : ℕ}
    → IsPlaced h
    → ¬ Live h x
    → h.last < h.max_num
    → h.last < h.capacity
    → Returns (Inserted h x) (insert h x h.last)
unfolding insert
insert-Inserted {h} {x} v absent below room =
    Returns-branch (full h) (λ e. absurd (ground arith))
      λ _.
        Returns-then (sift_up-Risen (suc h.last) (omega arith) (start v absent below room))
          (settled-Inserted v absent below room)
