-- ===== src/Minheap/Order.antt =====
-- What a heap of core/spy_minheap.c keeps true, and what its loops keep true while one position, the
-- hole, waits for its node.
use mysqlproxy.Base.{ℕ, ◌≤◌, ◌<◌, ◌≡◌, ◌≢◌, arith}
use mysqlproxy.Base.Runs.{ok}
use mysqlproxy.Minheap.{Heap, key, index, parent, load, place, placed}

-- node `x` stands at one of the first `last` positions
abbrev pub Live : Heap → ℕ → Type 0
Live h x = (index h x < h.last) × (h.slots (index h x) ≡ x)

-- no edge among the first `n` positions has a parent with a greater key
abbrev pub IsOrdered : Heap → ℕ → Type 0
IsOrdered h n = (c : ℕ) → 0 < c → c < n → key h (h.slots (parent c)) ≤ key h (h.slots c)

-- every node knows its position
abbrev pub IsIndexed : Heap → ℕ → Type 0
IsIndexed h n = (j : ℕ) → j < n → index h (h.slots j) ≡ j

-- all of it but the order of the keys, which `spy_minheap_delete` may lose
pub record IsPlaced (h : Heap) : Type 0 where
  pub indexed : IsIndexed h h.last
  pub fits : h.last ≤ h.capacity
  pub bounded : h.last ≤ h.max_num

pub record IsValid (h : Heap) : Type 0 where
  pub ordered : IsOrdered h h.last
  pub placing : IsPlaced h

-- `x` stands at one of the first `n` positions, and not at `i`
abbrev pub Elsewhere : Heap → ℕ → ℕ → ℕ → Type 0
Elsewhere h n i x = (index h x < n) × (index h x ≢ i) × (h.slots (index h x) ≡ x)

-- `h` has come from `g` by moving nodes: the hole, once at `a`, is now at `i`
pub record Hole (g : Heap) (a : ℕ) (h : Heap) (n i : ℕ) : Type 0 where
  pub inside : i < n
  pub room : n ≤ h.capacity
  pub indexed : (j : ℕ) → j < n → j ≢ i → index h (h.slots j) ≡ j
  pub same_keys : (x : ℕ) → key h x ≡ key g x
  pub kept : (x : ℕ) → Elsewhere g n a x → Elsewhere h n i x
  pub none_added : (x : ℕ) → Elsewhere h n i x → Elsewhere g n a x
  pub same_last : h.last ≡ g.last
  pub same_max : h.max_num ≡ g.max_num
  pub same_capacity : h.capacity ≡ g.capacity

module _ {g h : Heap} {a n i : ℕ} (v : Hole g a h n i) (j : ℕ) (below : j < n) (ne : j ≢ i) where
  abbrev moved : Heap
  moved = placed h i (h.slots j)

  moved-kept : (x : ℕ) → Elsewhere h n i x → Elsewhere moved n j x
  moved-kept x e = ground (arith, v.indexed j, v.inside)

  moved-none_added : (x : ℕ) → Elsewhere moved n j x → Elsewhere h n i x
  moved-none_added x e = ground (arith, v.indexed j, v.inside)

  -- the node at `j` fills the hole, and leaves one
  pub Hole-moved : Hole g a moved n j
  Hole-moved = record {
    inside = below;
    room = v.room;
    indexed = λ k p q. ground (arith, v.indexed k, v.indexed j);
    same_keys = λ x. ground (arith, v.same_keys x, v.same_keys (h.slots j));
    kept = λ x e. moved-kept x (v.kept x e);
    none_added = λ x e. v.none_added x (moved-none_added x e);
    same_last = v.same_last;
    same_max = v.same_max;
    same_capacity = v.same_capacity;
  }

pub load-ok : (h : Heap) (i : ℕ) → i < h.capacity → load h i ≡ ok (h.slots i)
unfolding load
load-ok h i p = ground arith

pub place-ok : (h : Heap) (i x : ℕ) → i < h.capacity → place h i x ≡ ok (placed h i x)
unfolding place
place-ok h i x p = ground arith
