-- ===== src/Turn/Quiet.antt =====
-- Handlers that leave the posted queues and the timers to others, and a queue that is handled by them.
use mysqlproxy.Base.{subst, ℕ, ◌≡◌, ◌∙◌, refl, some, List, [], ◌∷◌, arith}
use mysqlproxy.Base.Runs.{then-inv, ok-inj, Run, ok}
use mysqlproxy.State.{Queue, accepts, others, Link, head_of, World}
use mysqlproxy.Posted.{read_link, taken_out}
use mysqlproxy.Posted.Chain.{Chain, cons, Chain-frame, SameLinks}
use mysqlproxy.Posted.Both.{IsPosted, other}
use mysqlproxy.Posted.Delete.{delete-ok, taken_out-IsPosted, replaced}
use mysqlproxy.Posted.Process.{handle_all}

-- no link of a queue and no timer is changed
pub record IsQuiet (v v' : World) : Type 0 where
  pub links : (a : ℕ) → SameLinks v v' a
  pub heads : (q : Queue) → read_link v' (head_of q) ≡ read_link v (head_of q)
  pub timers : v'.timers ≡ v.timers

-- handlers of which each run is like that
abbrev pub AreQuiet : (ℕ → World → Run World) → Type 0
AreQuiet handle = (e : ℕ) (v v' : World) → handle e v ≡ ok v' → IsQuiet v v'

pub quiet-Chain :
    {v v' : World} {es : List ℕ} (q : Queue)
    → IsQuiet v v'
    → Chain v (head_of q) es
    → Chain v' (head_of q) es
quiet-Chain q h c = Chain-frame c (h.heads q) (λ a _. h.links a)

pub quiet-IsPosted :
    {v v' : World} {es : Queue → List ℕ} → IsQuiet v v' → IsPosted v es → IsPosted v' es
quiet-IsPosted h p = record {
  chain = λ q. quiet-Chain q h (p.chain q);
  apart = p.apart;
  known = λ a z. p.known a (λ t. z ((h.links a).0 ∙ t));
}

timers-taken_out : (v : World) (e : ℕ) (q : Queue) → (taken_out v e (head_of q)).timers ≡ v.timers
timers-taken_out v e accepts = ground arith
timers-taken_out v e others = ground arith

-- the queue is empty, and the other one and the timers are as they were
pub record Handled (v : World) (es : Queue → List ℕ) (q : Queue) (v' : World) : Type 0 where
  pub left : Queue → List ℕ
  pub posted : IsPosted v' left
  pub empty : left q ≡ []
  pub kept : left (other q) ≡ es (other q)
  pub timers : v'.timers ≡ v.timers

first_of :
    {v : World} {l : Link} (e : ℕ) (xs : List ℕ) → Chain v l (e ∷ xs) → (v.events e).prev ≡ some l
first_of e xs (cons r p out c) = p

replaced-both :
    (es : Queue → List ℕ) (q : Queue) (xs : List ℕ)
    → (replaced es q xs q ≡ xs) × (replaced es q xs (other q) ≡ es (other q))
replaced-both es accepts xs = (refl, refl)
replaced-both es others xs = (refl, refl)

pub handle_all-Handled :
    {handle : ℕ → World → Run World} (quiet : AreQuiet handle) (q : Queue) (xs : List ℕ) {v : World}
    {es : Queue → List ℕ}
    → IsPosted v es
    → es q ≡ xs
    → (v' : World) → handle_all handle xs v ≡ ok v'
    → Handled v es q v'
unfolding handle_all
handle_all-Handled quiet q [] {v} {es} p t v' r =
    subst (Handled v es q) (ok-inj r)
      (record { left = es; posted = p; empty = t; kept = refl; timers = refl })
handle_all-Handled {handle} quiet q (e ∷ xs) {v} {es} p t v' r =
    let prev = first_of e xs (subst (Chain v (head_of q)) t (p.chain q)) in
    let w = taken_out v e (head_of q) in
    let (u, run, rest) =
      then-inv (handle e w) (handle_all handle xs) (rw (delete-ok v e prev) at r) in
    let calm = quiet e w u run in
    let (same, same') = replaced-both es q xs in
    let h =
      handle_all-Handled quiet q xs (quiet-IsPosted calm (taken_out-IsPosted p [] e xs prev q t))
        same v' rest in
    record {
      left = h.left;
      posted = h.posted;
      empty = h.empty;
      kept = h.kept ∙ same';
      timers = h.timers ∙ calm.timers ∙ timers-taken_out v e q;
    }
