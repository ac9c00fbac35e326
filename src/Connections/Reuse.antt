-- ===== src/Connections/Reuse.antt =====
-- What `spy_get_connection` does to an event that is still in a posted queue. `spy_close_connection`
-- leaves it there: the code that would take it out is commented out.
use mysqlproxy.Base.{ℕ, ◌≡◌, ◌⊎◌, inl, inr, refl, true, Option, none, some, List, arith}
use mysqlproxy.State.{Queue, accepts, others, Link, head_of, World}
use mysqlproxy.Posted.{read_link}
use mysqlproxy.Posted.Chain.{has, Chain, nil, cons, SameLinks}
use mysqlproxy.Posted.Both.{IsPosted}
use mysqlproxy.Connections.{taken, get_connection}
use mysqlproxy.Connections.Free.{get-some}

-- a list of which an event lost its `prev` is no chain any more
cut_off :
    {w w' : World} {l : Link} {es fs : List ℕ} (e : ℕ)
    → ((a : ℕ) → ((w'.events a).prev ≡ none) ⊎ SameLinks w w' a)
    → (w'.events e).prev ≡ none
    → Chain w l es
    → has e es ≡ true
    → read_link w' l ≡ read_link w l
    → ¬ Chain w' l fs
cut_off e same gone (nil r) here link c' = ground arith
cut_off e same gone (cons r p out c) here link (nil r') = cc
cut_off e same gone (cons {e = a} r p out c) here link (cons {e = b} r' p' out' c') =
    let head : b ≡ a = ground arith in
    elim (same a) [
      | inl t ↦ ground arith
      | inr (t, t') ↦ cut_off e same gone c (ground arith) t' (rw head at c')
    ]

-- Taking a free connection while one of its two events is in a posted queue breaks the queues: no
-- contents are left for which they would be well-formed.
pub get_connection-not-IsPosted :
    {w : World} {es : Queue → List ℕ} (q : Queue) (s : Option ℕ) (c e : ℕ)
    → IsPosted w es
    → w.free_connections ≡ some c
    → (e ≡ (w.connections c).read) ⊎ (e ≡ (w.connections c).write)
    → has e (es q) ≡ true
    → ¬ ((fs : Queue → List ℕ) × IsPosted (get_connection w s).1 fs)
get_connection-not-IsPosted {w} q s c e v first its here (fs, v') =
    let same : (a : ℕ) → (((taken w c s).events a).prev ≡ none) ⊎ SameLinks w (taken w c s) a =
      λ a. ground arith in
    let broken = rw (get-some w s first) at v' in
    cut_off e same (ground arith) (v.chain q) here (heads q) (broken.chain q)
  where
    heads : (q : Queue) → read_link (taken w c s) (head_of q) ≡ read_link w (head_of q)
    heads accepts = refl
    heads others = refl
