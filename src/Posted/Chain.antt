-- ===== src/Posted/Chain.antt =====
-- What a posted queue holds, and the two operations that change it.
use mathlib.Core.Bool.{true}
use mysqlproxy.Base.{
  ℕ, ◌≡◌, refl, ◌≢◌, ◌∙◌, Bool, false, ◌||◌, none, some, List, [], ◌∷◌, arith, ◌==◌,
}
use mysqlproxy.State.{Queue, accepts, others, Link, head_of, next_of, World}
use mysqlproxy.Posted.{read_link, link_back, in_front, post_event}

abbrev pub has : ℕ → List ℕ → Bool
has a [] = false
has a (x ∷ xs) = (a == x) || has a xs

-- from the pointer `l` on, `w` holds the distinct events of the list, each with the right `prev`
pub data Chain (w : World) : Link → List ℕ → Type 0 where
  nil : {l : Link} → read_link w l ≡ none → Chain w l []
  cons :
      {l : Link} {e : ℕ} {es : List ℕ}
      → read_link w l ≡ some e
      → (w.events e).prev ≡ some l
      → has e es ≡ false
      → Chain w (next_of e) es
      → Chain w l (e ∷ es)

-- `l` is not the `next` of an event of the list
abbrev pub Outside : Link → List ℕ → Type 0
Outside (head_of q) es = Unit {0}
Outside (next_of e) es = has e es ≡ false

-- the links of event `a` are the same in both worlds
abbrev pub SameLinks : World → World → ℕ → Type 0
SameLinks w w' a =
    ((w'.events a).prev ≡ (w.events a).prev) × ((w'.events a).next ≡ (w.events a).next)

-- a list that no change touches stays
pub Chain-frame :
    {w w' : World} {l : Link} {es : List ℕ}
    → Chain w l es
    → read_link w' l ≡ read_link w l
    → ((a : ℕ) → has a es ≡ true → SameLinks w w' a)
    → Chain w' l es
Chain-frame (nil r) e same = nil (e ∙ r)
Chain-frame (cons {e = a} r p out c) e same =
    cons (e ∙ r) (ground (arith, same a)) out
      (Chain-frame c (ground (arith, same a)) (λ b i. same b (ground arith)))

pub prev-of-mem :
    {w : World} {l : Link} {es : List ℕ} (a : ℕ)
    → Chain w l es
    → has a es ≡ true
    → (w.events a).prev ≢ none
prev-of-mem a (nil r) i = cc
prev-of-mem a (cons r p out c) i = ground (arith, prev-of-mem a c)

pub not-mem :
    {w : World} {l : Link} {es : List ℕ} (a : ℕ)
    → Chain w l es
    → (w.events a).prev ≡ none
    → has a es ≡ false
not-mem a (nil r) h = refl
not-mem a (cons r p out c) h = ground (arith, not-mem a c)

pub post-in_front :
    (w : World) (e : ℕ) (q : Queue) → (w.events e).prev ≡ none → post_event w e q ≡ in_front w e q
unfolding post_event
post-in_front w e q h = rw (h, post_event)

pub in_front-Chain :
    {w : World} {es : List ℕ} (e : ℕ) (q : Queue)
    → Chain w (head_of q) es
    → has e es ≡ false
    → Chain (in_front w e q) (head_of q) (e ∷ es)
in_front-Chain e accepts (nil r) n =
    rw (r, link_back) (cons refl (ground arith) refl (nil (ground arith)))
in_front-Chain e others (nil r) n =
    rw (r, link_back) (cons refl (ground arith) refl (nil (ground arith)))
in_front-Chain e accepts (cons r p out c) n =
    rw (r, link_back)
      (cons (ground arith) (ground arith) n (
        cons (ground arith) (ground arith) out
          (Chain-frame c (ground arith) (λ b i. ground arith))))
in_front-Chain e others (cons r p out c) n =
    rw (r, link_back)
      (cons (ground arith) (ground arith) n (
        cons (ground arith) (ground arith) out
          (Chain-frame c (ground arith) (λ b i. ground arith))))
