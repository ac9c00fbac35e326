-- ===== src/Select/Poll/Scan.antt =====
-- The loop of `spy_select_process_events` over the watched events.
use native.Mathlib.Decide.{ℕ_discrete}
use mysqlproxy.Base.{
  ℕ, zero, suc, ◌+◌, ◌<◌, ◌≡◌, refl, ◌∙◌, ap, ◌⊎◌, inl, inr, Bool, true, false, ◌||◌, none, some,
  List, ◌==◌, if◌then◌else◌, arith, Bool-cases, Option-cases,
}
use mysqlproxy.Base.Runs.{Returns, returns, Returns-weaken}
use mysqlproxy.State.{Queue, accepts, others, Select, World}
use mysqlproxy.Posted.{post_event}
use mysqlproxy.Posted.Chain.{has, Chain-frame}
use mysqlproxy.Posted.Both.{IsPosted, with_event, post_event-IsPosted}
use mysqlproxy.Select.Poll.Same.{Same, Same-refl, Same-trans, make_ready-Same, post_event-Same}
use mysqlproxy.Select.Watch.{fd_of, event_fd-ok, Watched, IsWatching}
use mysqlproxy.Select.Poll.{is_set, queue_of, make_ready, visit, scan}

-- the descriptor of the event is in its work set
abbrev pub hit : World → ℕ → Bool
hit w e = elim (fd_of w e) [ none ↦ false | some f ↦ is_set w e f ]

-- how many of the `k` events from place `i` on are hit
abbrev pub hits : World → ℕ → ℕ → ℕ
hits w zero i = 0
hits w (suc k) i = (if hit w (w.select.event_index i) then 1 else 0) + hits w k (suc i)

-- the world `w` after the places below `i` have been visited, beginning with `w0`
pub record Scanned (w0 : World) (es0 : Queue → List ℕ) (i : ℕ) (w : World) : Type 0 where
  pub es : Queue → List ℕ
  pub posted : IsPosted w es
  pub same : Same w0 w
  pub kept : (q : Queue) (y : ℕ) → has y (es0 q) ≡ true → has y (es q) ≡ true
  pub found :
      (y : ℕ)
      → Watched w0 y
      → (w0.events y).index < i
      → hit w0 y ≡ true
      → ((w.events y).ready ≡ true) × ((has y (es accepts) || has y (es others)) ≡ true)
  pub only :
      (q : Queue) (y : ℕ)
      → has y (es q) ≡ true
      → (has y (es0 q) ≡ true) ⊎ (Watched w0 y × (hit w0 y ≡ true) × (q ≡ queue_of (w0.events y)))
  pub unready :
      (y : ℕ) → ((w.events y).ready ≡ (w0.events y).ready) ⊎ (Watched w0 y × (hit w0 y ≡ true))

pub Scanned-refl : {w : World} {es : Queue → List ℕ} → IsPosted w es → Scanned w es 0 w
Scanned-refl {w} {es} v = record {
  es = es;
  posted = v;
  same = Same-refl w;
  kept = λ q y h. h;
  found = λ y h p. absurd (omega arith);
  only = λ q y h. inl h;
  unready = λ y. inl refl;
}

has-with_event :
    (es : Queue → List ℕ) (e y : ℕ) (p q : Queue)
    → has y (es q) ≡ true
    → has y (with_event es e p q) ≡ true
has-with_event es e y accepts accepts h = ground arith
has-with_event es e y accepts others h = h
has-with_event es e y others accepts h = h
has-with_event es e y others others h = ground arith

with_event-inv :
    (es : Queue → List ℕ) (e y : ℕ) (p q : Queue)
    → has y (with_event es e p q) ≡ true
    → (has y (es q) ≡ true) ⊎ ((y ≡ e) × (q ≡ p))
with_event-inv es e y accepts accepts h = ground arith
with_event-inv es e y accepts others h = inl h
with_event-inv es e y others accepts h = inl h
with_event-inv es e y others others h = ground arith

with_event_self :
    (es : Queue → List ℕ) (e : ℕ) (q : Queue)
    → (has e (with_event es e q accepts) || has e (with_event es e q others)) ≡ true
with_event_self es e accepts = ground arith
with_event_self es e others = ground arith

make_ready-IsPosted :
    {w : World} {es : Queue → List ℕ} (e : ℕ) → IsPosted w es → IsPosted (make_ready w e) es
make_ready-IsPosted {w} e v = record {
  chain = elim [
    | accepts ↦ Chain-frame (v.chain accepts) refl (λ a i. ground arith)
    | others ↦ Chain-frame (v.chain others) refl (λ a i. ground arith)
  ];
  apart = v.apart;
  known = λ a h. v.known a (ground arith);
}

module _ {w0 w : World} {es0 : Queue → List ℕ} {i : ℕ} (s : Scanned w0 es0 i w) where
  hit-same : (y f : ℕ) → fd_of w0 y ≡ some f → hit w0 y ≡ is_set w y f
  hit-same y f h = ground (arith, s.same.select, s.same.write y)

  Scanned-miss :
      (f : ℕ)
      → let e = w0.select.event_index i in
        fd_of w0 e ≡ some f → is_set w e f ≡ false → Scanned w0 es0 (suc i) w
  Scanned-miss f h miss = record {
    es = s.es;
    posted = s.posted;
    same = s.same;
    kept = s.kept;
    found = λ y v p t. ground (arith, s.found y v, hit-same (w0.select.event_index i) f h);
    only = s.only;
    unready = s.unready;
  }

  module _ (f : ℕ) (at_fd : fd_of w0 (w0.select.event_index i) ≡ some f)
      (set : is_set w (w0.select.event_index i) f ≡ true)
      (here : Watched w0 (w0.select.event_index i)) where
    abbrev e : ℕ
    e = w0.select.event_index i

    abbrev q : Queue
    q = queue_of (w.events e)

    abbrev posted : World
    posted = post_event (make_ready w e) e q

    ready-posted : (y : ℕ) → (posted.events y).ready ≡ (if y == e then true else (w.events y).ready)
    ready-posted y = (post_event-Same (make_ready w e) e q).1 y ∙ ground arith

    Scanned-hit : Scanned w0 es0 (suc i) posted
    Scanned-hit = record {
      es = with_event s.es e q;
      posted = post_event-IsPosted e q (make_ready-IsPosted e s.posted);
      same =
          Same-trans s.same
            (Same-trans (make_ready-Same w e) (post_event-Same (make_ready w e) e q).0);
      kept = λ p y h. has-with_event s.es e y q p (s.kept p y h);
      found = λ y v p t. elim (ℕ_discrete y e) [
        | yes t' ↦ (ground (arith, ready-posted y), rw t' (with_event_self s.es e q))
        | no t' ↦
            let (old, has_old) = s.found y v (ground arith) t in
            (
              ground (arith, ready-posted y),
              ground (arith, has-with_event s.es e y q accepts, has-with_event s.es e y q others),
            )
      ];
      only = λ p y h. elim (with_event-inv s.es e y q p h) [
        | inl old ↦ s.only p y old
        | inr (t, t') ↦
            inr (rw t here, rw t (hit-same e f at_fd ∙ set), rw t (ground (arith, s.same.accept e)))
      ];
      unready = λ y. ground (arith, ready-posted y, s.unready y, hit-same e f at_fd);
    }

is_hit : (w0 : World) (e f : ℕ) → fd_of w0 e ≡ some f → hit w0 e ≡ is_set w0 e f
is_hit w0 e f h = ground arith

-- The loop visits every watched event and counts those that are hit.
pub scan-Scanned :
    (k i n : ℕ) {w0 w : World} {es0 : Queue → List ℕ}
    → IsWatching w0
    → i + k ≡ w0.select.nevents
    → Scanned w0 es0 i w
    → Returns (λ r. Scanned w0 es0 w0.select.nevents r.0 × (r.1 ≡ n + hits w0 k i)) (scan w k i n)
unfolding scan
scan-Scanned zero i n {w0} v total s =
    let done : i ≡ w0.select.nevents = omega arith in returns (rw done at s, omega arith)
scan-Scanned (suc k) i n {w0} {w} v total s =
    elim (Option-cases (fd_of w0 (w0.select.event_index i))) [
      | inl t ↦ absurd (v.opened (w0.select.event_index i) here t)
      | inr (f, t) ↦
          let at : w.select.event_index i ≡ w0.select.event_index i =
            ap (λ (x : Select). x.event_index i) s.same.select in
          let same_fd : fd_of w (w0.select.event_index i) ≡ some f =
            ground (arith, s.same.data_of (w0.select.event_index i), s.same.connections) in
          rw (at, event_fd-ok w (w0.select.event_index i) same_fd)
            (elim (Bool-cases (is_set w (w0.select.event_index i) f)) [
              | inl set ↦
                  rw (set, visit)
                    (Returns-weaken
                      (scan-Scanned k (suc i) (n + 1) v (omega arith) (Scanned-hit s f t set here))
                      (λ r z. (z.0, ground (arith, z.1, hit-same s (w0.select.event_index i) f t))))
              | inr miss ↦
                  rw (miss, visit)
                    (Returns-weaken
                      (scan-Scanned k (suc i) n v (omega arith) (Scanned-miss s f t miss))
                      (λ r z. (z.0, ground (arith, z.1, hit-same s (w0.select.event_index i) f t))))
            ])
    ]
  where
    here : Watched w0 (w0.select.event_index i)
    here = ground (arith, v.listed i)
