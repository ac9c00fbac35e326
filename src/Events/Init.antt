-- ===== src/Events/Init.antt =====
-- The connections that `spy_event_init` sets up.
use native.Mathlib.Decide.{ℕ_discrete}
use mysqlproxy.Base.{
  ◌⊎◌, inl, ℕ, zero, suc, ◌+◌, ◌*◌, ◌≤◌, ◌<◌, ◌≡◌, ◌∙◌, sym, refl, ap, true, false, Option, List,
  [], ◌∷◌, arith, subst,
}
use mysqlproxy.Base.Runs.{Returns, returns}
use mysqlproxy.State.{Connection, Event, World, word}
use mysqlproxy.Posted.Chain.{has}
use mysqlproxy.Posted.Process.{length}
use mysqlproxy.Connections.Free.{Free, free_nil, free_cons, Free-frame, IsListed}
use mysqlproxy.Connections.{mark_closed}
use mysqlproxy.Events.{close_events, link_connection, link_connections, set_up, init_connections}

-- the numbers below `i`, in order, in front of `cs`
abbrev pub span : ℕ → List ℕ → List ℕ
span zero cs = cs
span (suc i) cs = span i (i ∷ cs)

length-span : (i : ℕ) (cs : List ℕ) → length (span i cs) ≡ i + length cs
length-span zero cs = omega arith
length-span (suc i) cs = length-span i (i ∷ cs) ∙ omega arith

-- what the second loop makes of the connections below `i`
pub record Linked (w : World) (i : ℕ) (cs : List ℕ) (w' : World) : Type 0 where
  pub list : Free w' w'.free_connections (span i cs)
  pub reads : (c : ℕ) → c < i → (w'.connections c).read ≡ 2 * c
  pub writes : (c : ℕ) → c < i → (w'.connections c).write ≡ 2 * c + 1
  pub rest : (c : ℕ) → i ≤ c → w'.connections c ≡ w.connections c
  pub same_events : w'.events ≡ w.events

link_connections-Linked :
    (i : ℕ) {w : World} {next : Option ℕ} {cs : List ℕ}
    → Free w next cs
    → ((c : ℕ) → has c cs ≡ true → i ≤ c)
    → Linked w i cs (link_connections w i next)
unfolding link_connections
link_connections-Linked zero f above = record {
  list = Free-frame f (λ c h. (refl, refl));
  reads = λ c p. absurd (omega arith);
  writes = λ c p. absurd (omega arith);
  rest = λ c p. refl;
  same_events = refl;
}
link_connections-Linked (suc i) {w} {next} {cs} f above =
    let rest-listed : Free (link_connection w i next) next cs =
      Free-frame f (λ c h. ground (arith, above c)) in
    let next_is : ((link_connection w i next).connections i).data_of ≡ next = ground arith in
    let fresh : has i cs ≡ false = ground (arith, above i) in
    let l =
      link_connections-Linked i
        (free_cons {c = i} fresh (ground arith)
          (subst (λ o. Free (link_connection w i next) o cs) (sym next_is) rest-listed))
        (λ c h. ground (arith, above c)) in
    record {
      list = l.list;
      reads = λ c p. elim (ℕ_discrete c i) [
        | yes t ↦ rw t (ap (λ (x : Connection). x.read) (l.rest i (omega arith)) ∙ ground arith)
        | no t ↦ l.reads c (omega arith)
      ];
      writes = λ c p. elim (ℕ_discrete c i) [
        | yes t ↦ rw t (ap (λ (x : Connection). x.write) (l.rest i (omega arith)) ∙ ground arith)
        | no t ↦ l.writes c (omega arith)
      ];
      rest = λ c p. l.rest c (omega arith) ∙ ground arith;
      same_events = l.same_events;
    }

until_closed :
    (i : ℕ) (w : World) (e : ℕ)
    → (e < 2 * suc i) ⊎ ((w.events e).closed ≡ true)
    → (e < 2 * i) ⊎ (((mark_closed (mark_closed w (2 * i)) (2 * i + 1)).events e).closed ≡ true)
until_closed i w e h = ground arith

close_events-closed :
    (i : ℕ) (w : World) (e : ℕ)
    → (e < 2 * i) ⊎ ((w.events e).closed ≡ true)
    → ((close_events w i).events e).closed ≡ true
unfolding close_events
close_events-closed zero w e h = ground arith
close_events-closed (suc i) w e h = close_events-closed i _ e (until_closed i w e h)

pub record Initial (n : ℕ) (w : World) : Type 0 where
  pub listed : IsListed w (span n [])
  pub reads : (c : ℕ) → c < n → (w.connections c).read ≡ 2 * c
  pub writes : (c : ℕ) → c < n → (w.connections c).write ≡ 2 * c + 1
  pub closed : (e : ℕ) → e < 2 * n → (w.events e).closed ≡ true

set_up-Initial : (w : World) (n : ℕ) → 0 < n → n < word → Returns (Initial n) (set_up w n)
unfolding set_up
set_up-Initial w zero p q = absurd (omega arith)
set_up-Initial w (suc n) p q =
    let l =
      link_connections-Linked (suc n) {w = close_events w (suc n)} free_nil
        (λ c h. absurd (ground arith)) in
    let counted = length-span (suc n) [] in
    returns (record {
      listed = record {
        list = Free-frame l.list (λ c h. (refl, refl));
        count = sym (counted ∙ omega arith);
        bounded = omega (arith, counted);
      };
      reads = l.reads;
      writes = l.writes;
      closed = λ e h.
          ap (λ (v : ℕ → Event). (v e).closed) l.same_events
          ∙ close_events-closed (suc n) w e (inl h);
    })

-- With at least one connection `spy_event_init` makes all of them, in order, the free ones, with none
-- open and the counter right, gives each its two events, and marks all of these closed.
pub init_connections-Initial :
    (w : World)
    → 0 < w.connection_n
    → w.connection_n < word
    → Returns (Initial w.connection_n) (init_connections w)
unfolding init_connections
init_connections-Initial w some_one small = set_up-Initial w w.connection_n some_one small
