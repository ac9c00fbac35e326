-- ===== src/Minheap/Delete.antt =====
-- `spy_minheap_delete` of the node at any position.
use native.Mathlib.Decide.{ℕ_discrete}
use mysqlproxy.Base.{ℕ, suc, ◌-◌, ◌<◌, ◌≡◌, refl, ◌≢◌, ◌↔◌, arith}
use mysqlproxy.Base.Runs.{ok, Returns, returns, Returns-then, Returns-branch, ◌>>=◌}
use mysqlproxy.Minheap.{Heap, Status, done, key, index, parent, empty, load, placed, place, delete}
use mysqlproxy.Minheap.Order.{Live, IsOrdered, IsIndexed, IsPlaced, IsValid, load-ok, place-ok}
use mysqlproxy.Minheap.Fall.{Fits, Falling, Stopped, Fallen, sift_down-Fallen, sift_down-stays}

abbrev pub shrunk : Heap → Heap
shrunk h = record h { last = h.last - 1 }

-- the heap `h` without the node at `a`; it is in order if the last node fits there
pub record Removed (h : Heap) (a : ℕ) (r : Status × Heap) : Type 0 where
  pub succeeded : r.0 ≡ done
  pub one_less : r.1.last ≡ h.last - 1
  pub indexed : IsIndexed r.1 r.1.last
  pub ordered : IsOrdered h h.last → Fits (shrunk h) a → IsOrdered r.1 r.1.last
  pub same_keys : (y : ℕ) → key r.1 y ≡ key h y
  pub members : (y : ℕ) → Live r.1 y ↔ (Live h y × (y ≢ h.slots a))
  pub same_max : r.1.max_num ≡ h.max_num
  pub same_capacity : r.1.capacity ≡ h.capacity

module _ {h : Heap} {a : ℕ} (v : IsPlaced h) (below : a < h.last) where
  start : Falling (shrunk h) a (h.slots (h.last - 1)) (shrunk h) a
  start = record {
    hole = record {
      inside = omega arith;
      room = omega (arith, v.fits);
      indexed = λ j p q. v.indexed j (omega arith);
      same_keys = λ y. refl;
      kept = λ y e. e;
      none_added = λ y e. e;
      same_last = refl;
      same_max = refl;
      same_capacity = refl;
    };
    moving = refl;
    at_end = λ e. e;
    edges = λ o c p q r s. o c p (omega arith);
    bridged = λ o c p q r s. ground (arith, o c, o a);
    above = λ f p q. f p q;
  }

  module _ {g : Heap} {i : ℕ} (r : Falling (shrunk h) a (h.slots (h.last - 1)) g i)
      (s : Stopped g (h.slots (h.last - 1)) i) where
    abbrev mover : ℕ
    mover = h.slots (h.last - 1)

    settled-IsOrdered : IsOrdered h h.last → Fits (shrunk h) a → IsOrdered (placed g i mover) g.last
    settled-IsOrdered o f c p q =
        let o' : IsOrdered (shrunk h) (suc (h.last - 1)) = λ d p q. o d p (omega arith) in
        ground (arith, r.edges o' c, r.above f, s c)

    index-mover : index h mover ≡ h.last - 1
    index-mover = v.indexed (h.last - 1) (omega arith)

    -- no other position below the end holds the last node
    alone : (j : ℕ) → j < g.last → j ≢ i → g.slots j ≢ mover
    alone j p q e = elim (ℕ_discrete i g.last) [
      | yes t ↦
          let away = r.hole.none_added mover (ground (arith, r.hole.indexed j)) in
          absurd (away.1 (omega (arith, r.at_end t, index-mover, r.hole.same_last)))
      | no t ↦ ground (arith, r.hole.indexed j, r.hole.indexed g.last, r.moving)
    ]

    settled-IsIndexed : IsIndexed (placed g i mover) g.last
    settled-IsIndexed j p = ground (arith, r.hole.indexed j, alone j)

    settled-old : (y : ℕ) → Live (placed g i mover) y → Live h y × (y ≢ h.slots a)
    settled-old y l =
        let away = r.hole.none_added y (ground (arith, r.hole.indexed g.last, r.moving)) in
        ground (arith, v.indexed a, r.hole.same_last)

    settled-new : (y : ℕ) → Live h y → y ≢ h.slots a → Live (placed g i mover) y
    settled-new y l ne =
        let away = r.hole.kept y (ground (arith, r.hole.same_last)) in
        ground (arith, r.hole.same_last, r.moving, r.at_end)

  settled-Removed :
      (p : Heap × ℕ)
      → Fallen (shrunk h) a (h.slots (h.last - 1)) p
      → Returns (Removed h a) (load p.0 p.0.last >>= λ m. place p.0 p.1 m >>= λ h'. ok (done, h'))
  settled-Removed (g, i) (r, s) =
      let hole = r.hole in
      rw
        (
          load-ok g g.last hole.room,
          r.moving,
          place-ok g i (h.slots (h.last - 1)) (omega (arith, hole.inside, hole.room)),
        )
        (returns (record {
          succeeded = refl;
          one_less = hole.same_last;
          indexed = settled-IsIndexed r s;
          ordered = settled-IsOrdered r s;
          same_keys = λ y. ground (arith, hole.same_keys y, hole.same_keys (h.slots (h.last - 1)));
          members = λ y. (settled-old r s y, λ l. settled-new r s y l.0 l.1);
          same_max = hole.same_max;
          same_capacity = hole.same_capacity;
        }))

-- Deleting at a position of a heap removes exactly the node that stands there, changes no key and
-- keeps every node's position right. If the heap was in order, the result is, provided that the
-- position is the root or the last one, or the last node's key is not below that of the position's
-- parent.
pub delete-Removed :
    {h : Heap} {a : ℕ} → IsPlaced h → a < h.last → Returns (Removed h a) (delete h a)
unfolding delete
delete-Removed {h} {a} v below =
    Returns-branch (empty h) (λ e. absurd (ground arith))
      λ _.
        Returns-then (sift_down-Fallen h.last (omega arith) (start v below))
          (settled-Removed v below)

-- Deleting in the middle of a valid heap leaves it out of order whenever the last node's key is below
-- that of the position's parent: the function never moves the last node up.
pub delete-not-IsOrdered :
    {h : Heap} {a : ℕ}
    → IsValid h
    → 0 < a
    → a < h.last - 1
    → key h (h.slots (h.last - 1)) < key h (h.slots (parent a))
    → Returns (λ r. ¬ IsOrdered r.1 r.1.last) (delete h a)
unfolding delete
delete-not-IsOrdered {h} {a} v pos below less =
    let fits = v.placing.fits in
    let stop : Stopped (shrunk h) (h.slots (h.last - 1)) a =
      λ d p q e. ground (arith, v.ordered d, v.ordered a) in
    Returns-branch (empty h) (λ e. absurd (ground arith))
      λ _.
        rw
          (
            sift_down-stays h.last (shrunk h) a (omega arith) (omega arith) stop,
            load-ok (shrunk h) (h.last - 1) (omega arith),
            place-ok (shrunk h) a (h.slots (h.last - 1)) (omega arith),
          )
          (returns (λ ordered.
            ground (arith, ordered a, v.placing.indexed a, v.placing.indexed (parent a))))
