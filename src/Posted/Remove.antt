-- ===== src/Posted/Remove.antt =====
-- `spy_delete_posted_event` at any place of a queue.
use mysqlproxy.Base.{ℕ, ◌≡◌, refl, sym, ◌≢◌, ◌∙◌, true, ◌||◌, some, List, [], ◌∷◌, ◌++◌, arith}
use mysqlproxy.State.{accepts, others, Link, head_of, next_of, World}
use mysqlproxy.Posted.{read_link, taken_out}
use mysqlproxy.Posted.Chain.{has, Chain, nil, cons, Outside, SameLinks, Chain-frame}

pub has-append : (a : ℕ) (xs ys : List ℕ) → has a (xs ++ ys) ≡ (has a xs || has a ys)
has-append a [] ys = refl
has-append a (x ∷ xs) ys = ground (arith, has-append a xs ys)

-- the event behind `e` in a chain
pub next_inside :
    {w : World} {l : Link} (xs : List ℕ) (e : ℕ) (ys : List ℕ) (d : ℕ)
    → Chain w l (xs ++ e ∷ ys)
    → (w.events e).next ≡ some d
    → has d ys ≡ true
next_inside [] e ys d (cons r p out (nil s)) h = ground arith
next_inside [] e ys d (cons r p out (cons s q out' c)) h = ground arith
next_inside (x ∷ xs) e ys d (cons r p out c) h = next_inside xs e ys d c h

-- the pointer to an event that is not the first belongs to an event of the chain
pub prev_inside :
    {w : World} {l : Link} {x : ℕ} (xs : List ℕ) (e : ℕ) (ys : List ℕ) {k : Link}
    → Chain w l (x ∷ (xs ++ e ∷ ys))
    → (w.events e).prev ≡ some k
    → (a : ℕ) × (k ≡ next_of a) × (has a (x ∷ (xs ++ e ∷ ys)) ≡ true) × (a ≢ e)
prev_inside {x} [] e ys (cons r p out (cons s q out' c)) h =
    (x, ground arith, ground arith, ground arith)
prev_inside {x} (y ∷ xs) e ys (cons r p out c) h =
    let (a, is, i, ne) = prev_inside xs e ys c h in (a, is, ground arith, ne)

-- the pointer that pointed at the event now points behind it
read-taken_out :
    (w : World) (e : ℕ) (l : Link)
    → l ≢ next_of e
    → read_link (taken_out w e l) l ≡ (w.events e).next
read-taken_out w e (head_of accepts) ne = ground arith
read-taken_out w e (head_of others) ne = ground arith
read-taken_out w e (next_of a) ne = ground arith

prev-taken_out :
    (w : World) (e d : ℕ) (l : Link)
    → l ≢ next_of e
    → d ≢ e
    → (w.events e).next ≡ some d
    → ((taken_out w e l).events d).prev ≡ some l
prev-taken_out w e d (head_of accepts) ne ne' h = ground arith
prev-taken_out w e d (head_of others) ne ne' h = ground arith
prev-taken_out w e d (next_of a) ne ne' h = ground arith

pub prev_elsewhere :
    (w : World) (e b : ℕ) (l : Link)
    → l ≢ next_of e
    → b ≢ e
    → (w.events e).next ≢ some b
    → ((taken_out w e l).events b).prev ≡ (w.events b).prev
prev_elsewhere w e b (head_of accepts) ne ne' h = ground arith
prev_elsewhere w e b (head_of others) ne ne' h = ground arith
prev_elsewhere w e b (next_of a) ne ne' h = ground arith

pub frame-taken_out :
    (w : World) (e b : ℕ) (l : Link)
    → l ≢ next_of e
    → b ≢ e
    → l ≢ next_of b
    → (w.events e).next ≢ some b
    → SameLinks w (taken_out w e l) b
frame-taken_out w e b (head_of accepts) ne ne' h h' = ground arith
frame-taken_out w e b (head_of others) ne ne' h h' = ground arith
frame-taken_out w e b (next_of a) ne ne' h h' = ground arith

pub read_elsewhere :
    (w : World) (e : ℕ) (l m : Link)
    → l ≢ next_of e
    → m ≢ l
    → read_link (taken_out w e l) m ≡ read_link w m
read_elsewhere w e (head_of accepts) (head_of accepts) ne ne' = ground arith
read_elsewhere w e (head_of accepts) (head_of others) ne ne' = ground arith
read_elsewhere w e (head_of accepts) (next_of b) ne ne' = ground arith
read_elsewhere w e (head_of others) (head_of accepts) ne ne' = ground arith
read_elsewhere w e (head_of others) (head_of others) ne ne' = ground arith
read_elsewhere w e (head_of others) (next_of b) ne ne' = ground arith
read_elsewhere w e (next_of a) (head_of accepts) ne ne' = ground arith
read_elsewhere w e (next_of a) (head_of others) ne ne' = ground arith
read_elsewhere w e (next_of a) (next_of b) ne ne' = ground arith

-- a pointer outside a list is the `next` of none of its events
ne-of-Outside : (l : Link) (b : ℕ) (es : List ℕ) → Outside l es → has b es ≡ true → l ≢ next_of b
ne-of-Outside (head_of q) b es o i = λ e. ground arith
ne-of-Outside (next_of a) b es o i = λ e. ground arith

-- Taking an event out leaves the others in their order.
pub taken_out-Chain :
    {w : World} {l : Link} (xs : List ℕ) (e : ℕ) (ys : List ℕ) {k : Link}
    → Chain w l (xs ++ e ∷ ys)
    → Outside l (xs ++ e ∷ ys)
    → (w.events e).prev ≡ some k
    → Chain (taken_out w e k) l (xs ++ ys)
taken_out-Chain {w} {l} [] e ys {k} (cons r p out (nil s)) o h =
    let same : k ≡ l = ground arith in
    rw same (nil (read-taken_out w e l (ne-of-Outside l e (e ∷ []) o (ground arith)) ∙ s))
taken_out-Chain {w} {l} [] e ys {k} (cons r p out (cons {e = d} {es} s q out' c)) o h =
    let same : k ≡ l = ground arith in
    let ne : l ≢ next_of e = ne-of-Outside l e (e ∷ d ∷ es) o (ground arith) in
    rw same (
      cons (read-taken_out w e l ne ∙ s) (prev-taken_out w e d l ne (ground arith) s) out' (
        Chain-frame c
          (read_elsewhere w e l (next_of d) ne
            (λ z. ne-of-Outside l d (e ∷ d ∷ es) o (ground arith) (sym z)))
          λ b i.
            frame-taken_out w e b l ne (ground arith)
              (ne-of-Outside l b (e ∷ d ∷ es) o (ground arith)) (ground arith)))
taken_out-Chain {w} {l} (x ∷ xs) e ys {k} (cons r p out c) o h =
    let (a, is, i, ne) = prev_inside xs e ys (cons r p out c) h in
    let apart : l ≢ k = rw is (ne-of-Outside l a (x ∷ (xs ++ e ∷ ys)) o i) in
    let k_ne : k ≢ next_of e = ground arith in
    let behind : (w.events e).next ≢ some x =
      λ z. ground (arith, next_inside xs e ys x c z, has-append x xs (e ∷ ys)) in
    let x_ne : x ≢ e = ground (arith, has-append x xs (e ∷ ys)) in
    cons (read_elsewhere w e k l k_ne apart ∙ r) (prev_elsewhere w e x k k_ne x_ne behind ∙ p)
      (ground (arith, has-append x xs (e ∷ ys), has-append x xs ys))
      (taken_out-Chain xs e ys c out h)
