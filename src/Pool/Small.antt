-- ===== src/Pool/Small.antt =====
-- Allocations inside the blocks of a pool.
use mysqlproxy.Base.{
  ℕ, zero, suc, ◌+◌, ◌-◌, ◌%◌, ◌≤◌, ◌<◌, ◌≡◌, inl, inr, refl, Bool, true, false, Option, none, some,
  List, [], ◌∷◌, ◌++◌, arith, Bool-cases,
}
use mysqlproxy.State.{word}
use mysqlproxy.Pool.{
  Block, align_ptr, next_at, has_room, search, search_from, count_failures, count_from,
}

-- a block whose end is aligned
pub record IsBlock (b : Block) : Type 0 where
  pub inside : b.last ≤ b.end
  pub above : b.start ≤ b.last
  pub aligned_end : b.end % 8 ≡ 0
  pub bounded : b.end < word

pub data All : List Block → Type 0 where
  all_nil : All []
  all_cons : {b : Block} {bs : List Block} → IsBlock b → All bs → All (b ∷ bs)

-- `size` bytes at `m` have been cut off the free end of the block
pub record Carved (aligned : Bool) (size m : ℕ) (b b' : Block) : Type 0 where
  pub free : b.last ≤ m
  pub taken : b'.last ≡ m + size
  pub inside : b'.last ≤ b.end
  pub at_word : aligned ≡ true → m % 8 ≡ 0
  pub same : (b'.start ≡ b.start) × (b'.end ≡ b.end)

-- in one of the blocks, and the others are as they were
pub data Found (aligned : Bool) (size m : ℕ) : List Block → List Block → Type 0 where
  here :
      {b b' : Block} {bs : List Block}
      → Carved aligned size m b b'
      → Found aligned size m (b ∷ bs) (b' ∷ bs)
  there :
      {b : Block} {bs bs' : List Block}
      → Found aligned size m bs bs'
      → Found aligned size m (b ∷ bs) (b ∷ bs')

cut_from :
    (aligned : Bool) (size : ℕ) (b : Block)
    → IsBlock b
    → has_room size b (next_at aligned b) ≡ true
    → Carved aligned size (next_at aligned b) b (record b { last = next_at aligned b + size })
cut_from true size b v room =
    let fits : align_ptr b.last ≤ b.end = omega (arith, v.inside, v.aligned_end) in
    let exact : (b.end + word - align_ptr b.last) % word ≡ b.end - align_ptr b.last =
      omega (arith, v.bounded) in
    record {
      free = omega arith;
      taken = refl;
      inside = ground (arith, exact);
      at_word = λ _. omega arith;
      same = (refl, refl);
    }
cut_from false size b v room =
    let exact : (b.end + word - b.last) % word ≡ b.end - b.last =
      omega (arith, v.bounded, v.inside) in
    record {
      free = omega arith;
      taken = refl;
      inside = ground (arith, exact, v.inside);
      at_word = λ t. absurd (ground arith);
      same = (refl, refl);
    }

Carved-IsBlock :
    {aligned : Bool} {size m : ℕ} {b b' : Block}
    → IsBlock b
    → Carved aligned size m b b'
    → IsBlock b'
Carved-IsBlock v c = record {
  inside = ground (arith, c.inside, c.same.1);
  above = ground (arith, c.taken, c.free, v.above, c.same.0);
  aligned_end = ground (arith, v.aligned_end, c.same.1);
  bounded = ground (arith, v.bounded, c.same.1);
}

pub Found-All :
    {aligned : Bool} {size m : ℕ} {bs bs' : List Block}
    → All bs
    → Found aligned size m bs bs'
    → All bs'
Found-All all_nil f = elim f [ ]
Found-All (all_cons v a) (here c) = all_cons (Carved-IsBlock v c) a
Found-All (all_cons v a) (there f) = all_cons v (Found-All a f)

-- the next allocation would end behind the block
abbrev pub IsFull : Bool → ℕ → Block → Type 0
IsFull aligned size b = b.end < next_at aligned b + size

-- no block from number `n` on has room
abbrev pub AreFull : Bool → ℕ → ℕ → List Block → Type 0
AreFull aligned size n [] = Unit
AreFull aligned size zero (b ∷ bs) = IsFull aligned size b × AreFull aligned size zero bs
AreFull aligned size (suc n) (b ∷ bs) = AreFull aligned size n bs

IsFull-room :
    (aligned : Bool) (size : ℕ) (b : Block)
    → IsBlock b
    → has_room size b (next_at aligned b) ≡ false
    → IsFull aligned size b
IsFull-room true size b v none_left =
    let fits : align_ptr b.last ≤ b.end = omega (arith, v.inside, v.aligned_end) in
    let exact : (b.end + word - align_ptr b.last) % word ≡ b.end - align_ptr b.last =
      omega (arith, v.bounded) in
    ground (arith, exact, fits)
IsFull-room false size b v none_left =
    let exact : (b.end + word - b.last) % word ≡ b.end - b.last =
      omega (arith, v.bounded, v.inside) in
    ground (arith, exact, v.inside)

-- the answer of a search from block number `n` on
pub data Searched (aligned : Bool) (size n : ℕ) (bs : List Block)
    : Option (ℕ × List Block) → Type 0 where
  nothing : AreFull aligned size n bs → Searched aligned size n bs none
  found :
      {m : ℕ} {bs' : List Block}
      → Found aligned size m bs bs'
      → Searched aligned size n bs (some (m, bs'))

Searched-behind :
    {aligned : Bool} {size n n' : ℕ} (b : Block) {bs : List Block} {o : Option (ℕ × List Block)}
    → (AreFull aligned size n bs → AreFull aligned size n' (b ∷ bs))
    → Searched aligned size n bs o
    → Searched aligned size n'
        (b ∷ bs)
        (elim o as (λ _. Option (ℕ × List Block)) [ none ↦ none | some r ↦ some (r.0, b ∷ r.1) ])
Searched-behind b more (nothing h) = nothing (more h)
Searched-behind b more (found f) = found (there f)

search-Searched :
    (aligned : Bool) (size : ℕ) {bs : List Block}
    → All bs
    → Searched aligned size 0 bs (search aligned size bs)
unfolding search
search-Searched aligned size all_nil = nothing tt
search-Searched aligned size (all_cons {b} {bs} v a) =
    elim (Bool-cases (has_room size b (next_at aligned b))) [
      | inl t ↦ rw (search, t) (found (here (cut_from aligned size b v t)))
      | inr t ↦
          rw (search, t)
            (Searched-behind b (λ h. (IsFull-room aligned size b v t, h))
              (search-Searched aligned size a))
    ]

pub from-Searched :
    (aligned : Bool) (size n : ℕ) {bs : List Block}
    → All bs
    → Searched aligned size n bs (search_from aligned size n bs)
unfolding search_from
from-Searched aligned size zero a = search-Searched aligned size a
from-Searched aligned size (suc n) all_nil = nothing tt
from-Searched aligned size (suc n) (all_cons {b} v a) =
    Searched-behind b (λ h. h) (from-Searched aligned size n a)

-- the same blocks but for the counters of failures
pub data Counted : List Block → List Block → Type 0 where
  counted_nil : Counted [] []
  counted_cons :
      {b b' : Block} {bs bs' : List Block}
      → (b'.start ≡ b.start) × (b'.last ≡ b.last) × (b'.end ≡ b.end)
      → Counted bs bs'
      → Counted (b ∷ bs) (b' ∷ bs')

unchanged : (bs : List Block) → Counted bs bs
unchanged [] = counted_nil
unchanged (b ∷ bs) = counted_cons (refl, refl, refl) (unchanged bs)

failures-Counted : (n current : ℕ) (bs : List Block) → Counted bs (count_failures n current bs).1
unfolding count_failures
failures-Counted n current [] = counted_nil
failures-Counted n current (b ∷ []) = unchanged (b ∷ [])
failures-Counted n current (b ∷ c ∷ bs) =
    counted_cons (refl, refl, refl) (failures-Counted (suc n) _ (c ∷ bs))

pub from-Counted : (k n current : ℕ) (bs : List Block) → Counted bs (count_from k n current bs).1
unfolding count_from
from-Counted zero n current bs = failures-Counted n current bs
from-Counted (suc k) n current [] = counted_nil
from-Counted (suc k) n current (b ∷ bs) =
    counted_cons (refl, refl, refl) (from-Counted k (suc n) current bs)

pub Counted-All : {bs bs' : List Block} → All bs → Counted bs bs' → All bs'
Counted-All all_nil counted_nil = all_nil
Counted-All (all_cons v a) (counted_cons (t, t', t'') c) =
    all_cons
      (record {
        inside = ground (arith, v.inside);
        above = ground (arith, v.above);
        aligned_end = ground (arith, v.aligned_end);
        bounded = ground (arith, v.bounded);
      })
      (Counted-All a c)

pub All-snoc : {b : Block} {bs : List Block} → All bs → IsBlock b → All (bs ++ b ∷ [])
All-snoc all_nil v = all_cons v all_nil
All-snoc (all_cons w a) v = all_cons w (All-snoc a v)
