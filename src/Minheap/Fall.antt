-- ===== src/Minheap/Fall.antt =====
-- The loop of `spy_minheap_delete`: smaller children rise until the last node fits into the hole.
use mysqlproxy.Base.{
  ℕ, zero, suc, ◌+◌, ◌-◌, ◌*◌, ◌≤◌, ◌<◌, ◌≡◌, ◌≢◌, ltb, leb, ◌==◌, arith, Bool-cases, inl, inr,
}
use mysqlproxy.Base.Runs.{ok, Returns, returns, Returns-then, Returns-branch, Returns-inv}
use mysqlproxy.Minheap.{Heap, key, parent, placed, smaller_child, sift_down}
use mysqlproxy.Minheap.Order.{IsOrdered, Hole, Hole-moved, load-ok, place-ok}

-- the last node may stand at `a` as far as the parent of `a` is concerned
abbrev pub Fits : Heap → ℕ → Type 0
Fits g a = 0 < a → a < g.last → key g (g.slots (parent a)) ≤ key g (g.slots g.last)

-- the hole is at `i`, and the node `x` behind the heap waits for it
pub record Falling (g : Heap) (a : ℕ) (x : ℕ) (h : Heap) (i : ℕ) : Type 0 where
  pub hole : Hole g a h (suc h.last) i
  pub moving : h.slots h.last ≡ x
  pub at_end : i ≡ h.last → a ≡ h.last
  pub edges :
      IsOrdered g (suc g.last)
      → (c : ℕ) → 0 < c
      → c < h.last
      → c ≢ i
      → parent c ≢ i
      → key h (h.slots (parent c)) ≤ key h (h.slots c)
  pub bridged :
      IsOrdered g (suc g.last)
      → (c : ℕ) → 0 < c
      → c < h.last
      → parent c ≡ i
      → 0 < i
      → key h (h.slots (parent i)) ≤ key h (h.slots c)
  pub above : Fits g a → 0 < i → i < h.last → key h (h.slots (parent i)) ≤ key h x

-- `c` is a child of `i` with the least key
record Smallest (h : Heap) (i c : ℕ) : Type 0 where
  inside : c < h.last
  child : parent c ≡ i
  not_root : 0 < c
  least : (d : ℕ) → 0 < d → d < h.last → parent d ≡ i → key h (h.slots c) ≤ key h (h.slots d)

least_of_two :
    (h : Heap) (i m : ℕ)
    → m ≤ key h (h.slots (2 * i + 1))
    → (2 * i + 1 + 1 < h.last → m ≤ key h (h.slots (2 * i + 1 + 1)))
    → (d : ℕ) → 0 < d
    → d < h.last
    → parent d ≡ i
    → m ≤ key h (h.slots d)
least_of_two h i m l r d p q e = elim (Bool-cases (d == 2 * i + 1)) [
  | inl s ↦ let t : d ≡ 2 * i + 1 = ground arith in rw t l
  | inr s ↦ let t : d ≡ 2 * i + 1 + 1 = ground arith in rw t (r (omega arith))
]

smaller_child-Smallest :
    (h : Heap) (i : ℕ)
    → 2 * i + 1 < h.last
    → h.last ≤ h.capacity
    → Returns (Smallest h i) (smaller_child h (2 * i + 1))
unfolding smaller_child
smaller_child-Smallest h i p q =
    Returns-branch (ltb (2 * i + 1) (h.last - 1))
      (λ e.
        rw (load-ok h (2 * i + 1) (omega arith), load-ok h (2 * i + 1 + 1) (ground arith))
          (elim (Bool-cases (ltb (key h (h.slots (2 * i + 1 + 1))) (key h (h.slots (2 * i + 1))))) [
            | inl s ↦ rw s (
                returns (
                  smallest _ (ground arith) (omega arith) (omega arith) (ground arith)
                    (λ _. omega arith)))
            | inr s ↦ rw s (
                returns
                  (smallest _ p (omega arith) (omega arith) (omega arith) (λ _. ground arith)))
          ]))
      (λ e.
        returns
          (smallest _ p (omega arith) (omega arith) (omega arith) (λ t. absurd (ground arith))))
  where
    smallest :
        (c : ℕ)
        → c < h.last
        → parent c ≡ i
        → 0 < c
        → key h (h.slots c) ≤ key h (h.slots (2 * i + 1))
        → (2 * i + 1 + 1 < h.last → key h (h.slots c) ≤ key h (h.slots (2 * i + 1 + 1)))
        → Smallest h i c
    smallest c inside child pos l r = record {
      inside = inside;
      child = child;
      not_root = pos;
      least = least_of_two h i _ l r;
    }

module _ {g h : Heap} {a x i c : ℕ} (v : Falling g a x h i) (s : Smallest h i c)
    (less : key h (h.slots c) < key h x) where
  Falling-step : Falling g a x (placed h i (h.slots c)) c
  Falling-step =
      let inside = v.hole.inside in
      record {
        hole = Hole-moved v.hole c (omega (arith, s.inside)) (ground (arith, s.child, s.not_root));
        moving = ground (arith, v.moving, s.child, s.inside, s.not_root);
        at_end = λ e. absurd (omega (arith, s.inside));
        edges = λ o d p q r t.
            ground (arith, v.edges o d, v.bridged o c, s.least d, s.child, s.not_root, s.inside);
        bridged = λ o d p q r t. ground (arith, v.edges o d, s.child, s.not_root, s.inside);
        above = λ f p q. ground (arith, s.child, s.not_root, s.inside);
      }

-- no child of `i` has a smaller key than `x`
abbrev pub Stopped : Heap → ℕ → ℕ → Type 0
Stopped h x i = (d : ℕ) → 0 < d → d < h.last → parent d ≡ i → key h x ≤ key h (h.slots d)

abbrev pub Fallen : Heap → ℕ → ℕ → Heap × ℕ → Type 0
Fallen g a x (h, i) = Falling g a x h i × Stopped h x i

pub sift_down-Fallen :
    (k : ℕ) {g h : Heap} {a x i : ℕ}
    → h.last < k + i
    → Falling g a x h i
    → Returns (Fallen g a x) (sift_down k h i)
unfolding sift_down
sift_down-Fallen zero f v = absurd (omega (arith, v.hole.inside))
sift_down-Fallen (suc k) {g} {h} {a} {x} {i} f v =
    Returns-branch (ltb (2 * i + 1) h.last)
      (λ e.
        Returns-then (smaller_child-Smallest h i (ground arith) (omega (arith, v.hole.room))) λ c s.
          rw
            (
              load-ok h h.last (v.hole.room),
              v.moving,
              load-ok h c (omega (arith, s.inside, v.hole.room)),
            )
            (Returns-branch (leb (key h x) (key h (h.slots c)))
              (λ e'. returns (v, λ d p q r. ground (arith, s.least d)))
              (λ e'. rw (place-ok h i (h.slots c) (omega (arith, v.hole.room, v.hole.inside))) (
                sift_down-Fallen k (ground (arith, s.child, s.not_root))
                  (Falling-step v s (ground arith))))))
      (λ e. returns (v, λ d p q r. absurd (ground arith)))

-- Where the node fits at once, the loop ends in its first round.
pub sift_down-stays :
    (k : ℕ) (g : Heap) (a : ℕ)
    → 0 < k
    → g.last < g.capacity
    → Stopped g (g.slots g.last) a
    → sift_down k g a ≡ ok (g, a)
unfolding sift_down
sift_down-stays zero g a f room stop = absurd (omega arith)
sift_down-stays (suc k) g a f room stop = elim (Bool-cases (ltb (2 * a + 1) g.last)) [
  | inr leaf ↦ rw leaf
  | inl more ↦
      let (c, e, s) = Returns-inv (smaller_child-Smallest g a (ground arith) (omega arith)) in
      rw (more, e, load-ok g g.last room, load-ok g c (omega (arith, s.inside)))
        (ground (arith, stop c, s.inside, s.not_root, s.child))
]
