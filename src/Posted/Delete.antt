-- ===== src/Posted/Delete.antt =====
-- `spy_delete_posted_event` with both queues in view.
use mysqlproxy.Base.{
  ℕ, ◌≡◌, refl, ◌≢◌, ◌⊎◌, inl, inr, true, false, ◌||◌, none, some, List, [], ◌∷◌, ◌++◌, arith, ◌==◌,
  Bool-cases,
}
use mysqlproxy.State.{Queue, accepts, others, Link, head_of, next_of, World}
use mysqlproxy.Base.Runs.{ok, Returns, returns}
use mysqlproxy.Posted.{taken_out, delete_posted}
use mysqlproxy.Posted.Chain.{has, Chain, nil, cons, Chain-frame}
use mysqlproxy.Posted.Remove.{
  taken_out-Chain, has-append, prev_inside, next_inside, read_elsewhere, frame-taken_out,
}
use mysqlproxy.Posted.Both.{IsPosted, other}

pub delete-ok :
    (w : World) (e : ℕ) {l : Link}
    → (w.events e).prev ≡ some l
    → delete_posted w e ≡ ok (taken_out w e l)
unfolding delete_posted
delete-ok w e h = rw (h, delete_posted)

-- the pointer at an event of a queue is the queue's head or belongs to another event of the queue
data Pointer (e : ℕ) (l : Link) (es : List ℕ) (k : Link) : Type 0 where
  at_head : k ≡ l → Pointer e l es k
  behind : (a : ℕ) → k ≡ next_of a → has a es ≡ true → a ≢ e → Pointer e l es k

link_before :
    {w : World} {l : Link} (xs : List ℕ) (e : ℕ) (ys : List ℕ) {k : Link}
    → Chain w l (xs ++ e ∷ ys)
    → (w.events e).prev ≡ some k
    → Pointer e l (xs ++ e ∷ ys) k
link_before [] e ys (cons r p out c) h = at_head (ground arith)
link_before (x ∷ xs) e ys c h = let (a, is, i, ne) = prev_inside xs e ys c h in behind a is i ne

prev_some :
    {w : World} {l : Link} (es : List ℕ) (e : ℕ)
    → Chain w l es
    → has e es ≡ true
    → (k : Link) × ((w.events e).prev ≡ some k)
prev_some [] e (nil r) i = cc
prev_some (x ∷ xs) e (cons {l} r p out c) i = elim (Bool-cases (e == x)) [
  | inl t ↦ (l, ground arith)
  | inr f ↦ prev_some xs e c (ground arith)
]

-- the queues with the list of `q` replaced
abbrev pub replaced : (Queue → List ℕ) → Queue → List ℕ → Queue → List ℕ
replaced es accepts l accepts = l
replaced es others l others = l
replaced es accepts l others = es others
replaced es others l accepts = es accepts

-- a queue that does not hold `e` stays as it is
other-Chain :
    {w : World} {es fs : List ℕ} {e : ℕ} {k : Link} (q : Queue)
    → Pointer e (head_of q) es k
    → Chain w (head_of (other q)) fs
    → has e fs ≡ false
    → ((a : ℕ) → has a es ≡ true → has a fs ≡ false)
    → ((d : ℕ) → (w.events e).next ≡ some d → has d fs ≡ false)
    → Chain (taken_out w e k) (head_of (other q)) fs
other-Chain {w} {es} {fs} {e} {k} accepts (at_head t) c n apart away = rw t (
    Chain-frame c
      (read_elsewhere w e (head_of accepts) (head_of others) (ground arith) (ground arith))
      (λ b i.
        frame-taken_out w e b (head_of accepts) (ground arith) (ground arith) (ground arith)
          (λ z. ground (arith, away b))))
other-Chain {w} {es} {fs} {e} {k} others (at_head t) c n apart away = rw t (
    Chain-frame c
      (read_elsewhere w e (head_of others) (head_of accepts) (ground arith) (ground arith))
      (λ b i.
        frame-taken_out w e b (head_of others) (ground arith) (ground arith) (ground arith)
          (λ z. ground (arith, away b))))
other-Chain {w} {es} {fs} {e} {k} accepts (behind a t i ne) c n apart away = rw t (
    Chain-frame c (read_elsewhere w e (next_of a) (head_of others) (ground arith) (ground arith))
      (λ b i'.
        frame-taken_out w e b (next_of a) (ground arith) (ground arith) (ground (arith, apart a))
          (λ z. ground (arith, away b))))
other-Chain {w} {es} {fs} {e} {k} others (behind a t i ne) c n apart away = rw t (
    Chain-frame c (read_elsewhere w e (next_of a) (head_of accepts) (ground arith) (ground arith))
      (λ b i'.
        frame-taken_out w e b (next_of a) (ground arith) (ground arith) (ground (arith, apart a))
          (λ z. ground (arith, away b))))

prev-taken_out :
    (w : World) (e a : ℕ) (l : Link)
    → ((taken_out w e l).events a).prev ≢ none
    → (a ≢ e) × (((w.events a).prev ≢ none) ⊎ ((w.events e).next ≡ some a) ⊎ (l ≡ next_of e))
prev-taken_out w e a (head_of accepts) h = ground arith
prev-taken_out w e a (head_of others) h = ground arith
prev-taken_out w e a (next_of b) h = ground arith

has_split :
    (a : ℕ) (xs : List ℕ) (e : ℕ) (ys : List ℕ)
    → has a (xs ++ e ∷ ys) ≡ ((a == e) || has a (xs ++ ys))
has_split a [] e ys = refl
has_split a (x ∷ xs) e ys = ground (arith, has_split a xs e ys)

Pointer-ne :
    {e : ℕ} {q : Queue} {es : List ℕ} (k : Link) → Pointer e (head_of q) es k → k ≢ next_of e
Pointer-ne k (at_head t) = λ z. ground arith
Pointer-ne k (behind a t i ne) = λ z. ground arith

module _ {w : World} {es : Queue → List ℕ} (v : IsPosted w es) (xs : List ℕ) (e : ℕ) (ys : List ℕ)
    {k : Link} (at_link : (w.events e).prev ≡ some k) where
  module _ (q : Queue) (h : es q ≡ xs ++ e ∷ ys) where
    queue : Chain w (head_of q) (xs ++ e ∷ ys)
    queue = rw h at (v.chain q)

    has-queue : (a : ℕ) → has a (es q) ≡ ((a == e) || has a (xs ++ ys))
    has-queue a = rw h (has_split a xs e ys)

    behind_inside : (d : ℕ) → (w.events e).next ≡ some d → has d (es q) ≡ true
    behind_inside d z =
        ground (arith, has-queue d, next_inside xs e ys d queue z, has-append d xs ys)

    pointer : Pointer e (head_of q) (xs ++ e ∷ ys) k
    pointer = link_before xs e ys queue at_link

    still_known :
        (a : ℕ)
        → ((taken_out w e k).events a).prev ≢ none
        → (a ≢ e) × ((has a (es accepts) || has a (es others)) ≡ true ⊎ (has a (es q) ≡ true))
    still_known a z =
        ground (arith, prev-taken_out w e a k z, v.known a, behind_inside a, Pointer-ne k pointer)

  -- Taking event `e` out of the queue that holds it leaves all the others in both queues, in order.
  pub taken_out-IsPosted :
      (q : Queue) → es q ≡ xs ++ e ∷ ys → IsPosted (taken_out w e k) (replaced es q (xs ++ ys))
  taken_out-IsPosted accepts h = record {
    chain = elim [
      | accepts ↦ taken_out-Chain xs e ys (queue accepts h) tt at_link
      | others ↦
          other-Chain accepts (pointer accepts h) (v.chain others)
            (ground (arith, v.apart e, has-queue accepts h e))
            (λ a i. ground (arith, v.apart a, has-queue accepts h a, has_split a xs e ys))
            (λ d z. ground (arith, v.apart d, behind_inside accepts h d))
    ];
    apart = λ a i. ground (arith, v.apart a, has-queue accepts h a);
    known = λ a z. ground (arith, still_known accepts h a z, has-queue accepts h a);
  }
  taken_out-IsPosted others h = record {
    chain = elim [
      | accepts ↦
          other-Chain others (pointer others h) (v.chain accepts)
            (ground (arith, v.apart e, has-queue others h e))
            (λ a i. ground (arith, v.apart a, has-queue others h a, has_split a xs e ys))
            (λ d z. ground (arith, v.apart d, behind_inside others h d))
      | others ↦ taken_out-Chain xs e ys (queue others h) tt at_link
    ];
    apart = λ a i. ground (arith, v.apart a, has-queue others h a);
    known = λ a z. ground (arith, still_known others h a z, has-queue others h a);
  }

-- `spy_delete_posted_event` on an event that a queue holds, wherever it stands, takes out exactly
-- this event, leaves the others of both queues in their order, and lets it be posted again.
pub delete_posted-IsPosted :
    {w : World} {es : Queue → List ℕ} (q : Queue) (xs : List ℕ) (e : ℕ) (ys : List ℕ)
    → IsPosted w es
    → es q ≡ xs ++ e ∷ ys
    → Returns
        (λ w'. IsPosted w' (replaced es q (xs ++ ys)) × ((w'.events e).prev ≡ none))
        (delete_posted w e)
delete_posted-IsPosted {w} {es} q xs e ys v h =
    let (k, at_link) =
      prev_some (es q) e (v.chain q) (rw h (ground (arith, has_split e xs e ys))) in
    rw (delete-ok w e at_link) (returns (taken_out-IsPosted v xs e ys at_link q h, ground arith))
