-- ===== src/Posted/Both.antt =====
-- The two posted queues together.
use mysqlproxy.Base.{
  ℕ, ◌≡◌, refl, ◌≢◌, ◌⊎◌, inl, inr, true, false, ◌||◌, none, some, List, ◌∷◌, arith, if◌then◌else◌,
  Option-cases,
}
use mathlib.Core.Path.{fun_ext}
use mysqlproxy.State.{Queue, accepts, others, Link, head_of, World}
use mysqlproxy.Posted.{read_link, in_front, post_event}
use mysqlproxy.Posted.Chain.{
  has, Chain, nil, cons, Chain-frame, not-mem, post-in_front, in_front-Chain,
}

-- the queues hold the events `es q`, no event twice, and only these events have a `prev`
pub record IsPosted (w : World) (es : Queue → List ℕ) : Type 0 where
  pub chain : (q : Queue) → Chain w (head_of q) (es q)
  pub apart : (a : ℕ) → has a (es accepts) ≡ true → has a (es others) ≡ false
  pub known : (a : ℕ) → (w.events a).prev ≢ none → (has a (es accepts) || has a (es others)) ≡ true

abbrev pub other : Queue → Queue
other accepts = others
other others = accepts

-- the queues with event `e` in front of `q`, unless one of them holds it
abbrev pub with_event : (Queue → List ℕ) → ℕ → Queue → Queue → List ℕ
with_event es e accepts accepts =
    if has e (es accepts) || has e (es others) then es accepts else e ∷ es accepts
with_event es e others others =
    if has e (es accepts) || has e (es others) then es others else e ∷ es others
with_event es e accepts others = es others
with_event es e others accepts = es accepts

-- what a queue's pointer points at is an event of the queue
pub first_inside :
    {w : World} {l : Link} {es : List ℕ} (d : ℕ)
    → Chain w l es
    → read_link w l ≡ some d
    → has d es ≡ true
first_inside d (nil r) h = cc
first_inside d (cons r p out c) h = ground arith

in_front-other :
    {w : World} {es fs : List ℕ} (e : ℕ) (q : Queue)
    → Chain w (head_of q) es
    → Chain w (head_of (other q)) fs
    → has e fs ≡ false
    → ((a : ℕ) → has a es ≡ true → has a fs ≡ false)
    → Chain (in_front w e q) (head_of (other q)) fs
in_front-other e accepts c d n apart =
    Chain-frame d (ground arith) λ a i. ground (arith, apart a, first_inside a c)
in_front-other e others c d n apart =
    Chain-frame d (ground arith) λ a i. ground (arith, apart a, first_inside a c)

pub post_event-known :
    (w : World) (e : ℕ) (q : Queue) {x : Link} → (w.events e).prev ≡ some x → post_event w e q ≡ w
unfolding post_event
post_event-known w e q h = rw (h, post_event)

linked_queue :
    {w : World} {es : Queue → List ℕ} → IsPosted w es → (q : Queue) → Chain w (head_of q) (es q)
linked_queue v q = v.chain q

absent :
    {w : World} {es : Queue → List ℕ} (e : ℕ) (q : Queue)
    → IsPosted w es
    → (w.events e).prev ≡ none
    → has e (es q) ≡ false
absent e q v h = not-mem e (v.chain q) h

prev-in_front :
    (w : World) (e a : ℕ) (q : Queue)
    → ((in_front w e q).events a).prev ≢ none
    → (a ≡ e) ⊎ ((w.events a).prev ≢ none) ⊎ (read_link w (head_of q) ≡ some a)
prev-in_front w e a accepts h = ground arith
prev-in_front w e a others h = ground arith

abbrev pushed : (Queue → List ℕ) → ℕ → Queue → Queue → List ℕ
pushed es e accepts accepts = e ∷ es accepts
pushed es e others others = e ∷ es others
pushed es e accepts others = es others
pushed es e others accepts = es accepts

module _ (es : Queue → List ℕ) (e : ℕ) where
  with_event-new :
      (has e (es accepts) || has e (es others)) ≡ false
      → (q r : Queue) → with_event es e q r ≡ pushed es e q r
  with_event-new h accepts accepts = ground arith
  with_event-new h others others = ground arith
  with_event-new h accepts others = refl
  with_event-new h others accepts = refl

  with_event-old :
      (has e (es accepts) || has e (es others)) ≡ true → (q r : Queue) → with_event es e q r ≡ es r
  with_event-old h accepts accepts = ground arith
  with_event-old h others others = ground arith
  with_event-old h accepts others = refl
  with_event-old h others accepts = refl

module _ {w : World} {es : Queue → List ℕ} (e : ℕ) (v : IsPosted w es)
    (new : (w.events e).prev ≡ none) where
  in_front-known :
      (q : Queue) (a : ℕ)
      → ((in_front w e q).events a).prev ≢ none
      → (has a (pushed es e q accepts) || has a (pushed es e q others)) ≡ true
  in_front-known accepts a h =
      ground (arith, prev-in_front w e a accepts h, v.known a, first_inside a (v.chain accepts))
  in_front-known others a h =
      ground (arith, prev-in_front w e a others h, v.known a, first_inside a (v.chain others))

  in_front-IsPosted : (q : Queue) → IsPosted (in_front w e q) (pushed es e q)
  in_front-IsPosted accepts = record {
    chain = elim [
      | accepts ↦ in_front-Chain e accepts (v.chain accepts) (absent e accepts v new)
      | others ↦
          in_front-other e accepts (v.chain accepts) (v.chain others) (absent e others v new)
            v.apart
    ];
    apart = λ a h. ground (arith, v.apart a, absent e others v new);
    known = in_front-known accepts;
  }
  in_front-IsPosted others = record {
    chain = elim [
      | accepts ↦
          in_front-other e others (v.chain others) (v.chain accepts) (absent e accepts v new)
            (λ a h. ground (arith, v.apart a))
      | others ↦ in_front-Chain e others (v.chain others) (absent e others v new)
    ];
    apart = λ a h. ground (arith, v.apart a, absent e accepts v new);
    known = in_front-known others;
  }

-- Posting an event puts it in front of its queue, unless it is in a queue already; then nothing
-- changes. Every other event keeps its place.
pub post_event-IsPosted :
    {w : World} {es : Queue → List ℕ} (e : ℕ) (q : Queue)
    → IsPosted w es
    → IsPosted (post_event w e q) (with_event es e q)
post_event-IsPosted {w} {es} e q v = elim (Option-cases (w.events e).prev) [
  | inl new ↦ rw (post-in_front w e q new) (
      rw
        (fun_ext
          (with_event-new es e (ground (arith, absent e accepts v new, absent e others v new)) q))
        (in_front-IsPosted e v new q))
  | inr (x, old) ↦
      rw (post_event-known w e q old)
        (rw (fun_ext (with_event-old es e (v.known e (ground arith)) q)) v)
]
