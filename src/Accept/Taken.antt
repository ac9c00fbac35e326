-- ===== src/Accept/Taken.antt =====
-- What becomes of a socket that accept() gives.
use mysqlproxy.Base.{
  ◌||◌, Bool-cases, inl, inr, ◌≢◌, ℕ, suc, ◌<◌, ◌≡◌, ◌∙◌, sym, ap, subst, refl, Bool, true, false,
  not, ◌&&◌, Option, none, some, List, [], ◌∷◌, arith, ◌==◌, if◌then◌else◌,
}
use mysqlproxy.Base.Runs.{Run, ok, ◌>>=◌}
use mysqlproxy.State.{World, word, Connection}
use mysqlproxy.Posted.Chain.{has}
use mysqlproxy.Posted.Process.{length}
use mysqlproxy.Connections.{get_connection, new_event}
use mysqlproxy.Connections.Free.{
  Free, Free-frame, free_cons, IsListed, IsWired, Taken, Got, got_none, got, get_connection-Taken,
}
use mysqlproxy.Accept.{
  Answer, socket, again, aborted, refused, Outside, close_accepted, with_pool, prepared, exhausted,
  set_up, accept,
}

-- the connection `c` as the handler finds it: with the socket, the listening entry and a pool, its write
-- event ready and its read event as new
pub record IsFresh (o : Outside) (ls : Option ℕ) (c s : ℕ) (w v : World) : Type 0 where
  pub at_fd : (v.connections c).fd ≡ some s
  pub at_entry : (v.connections c).listening ≡ ls
  pub at_pool : (v.connections c).pool ≡ o.pool
  pub same_read : (v.connections c).read ≡ (w.connections c).read
  pub same_write : (v.connections c).write ≡ (w.connections c).write
  pub read_event : v.events (w.connections c).read ≡ new_event c false
  pub write_event : v.events (w.connections c).write ≡ record (new_event c true) { ready = true }

-- the socket that the answers lead to, if any: the loop goes on behind ECONNABORTED while there may be more
abbrev pub arrived : (available : Bool) → List Answer → Option ℕ
arrived available [] = none
arrived available (again ∷ as') = none
arrived available (refused ∷ as') = none
arrived available (socket s ∷ as') = some s
arrived available (aborted ∷ as') = if available then arrived available as' else none

-- all that the set-up of a connection needs is there
abbrev pub can_set_up : Outside → Bool
can_set_up o = elim o.pool [
  | none ↦ false
  | some p ↦ o.has_sockaddr && (not o.addr_ntop || (o.has_text && o.printed))
]

-- what `spy_event_accept` does with the socket `p` that has arrived, where `cs` are the free connections
pub data Accepted (o : Outside) (ev : ℕ) (ls : Option ℕ) (w : World) (cs : List ℕ) (p : Option ℕ)
    : Run (World × List ℕ) → Type 0 where
  idle : p ≡ none → Accepted o ev ls w cs p (ok (w, []))
  no_connection : (s : ℕ) → p ≡ some s → cs ≡ [] → Accepted o ev ls w cs p (ok (w, s ∷ []))
  given_up :
      (s : ℕ) {c : ℕ} {rest : List ℕ} {v : World}
      → p ≡ some s
      → cs ≡ c ∷ rest
      → can_set_up o ≡ false
      → IsListed v cs × IsWired v
      → (v.connections c).fd ≡ none
      → Accepted o ev ls w cs p (ok (v, s ∷ []))
  handed :
      (s : ℕ) {c : ℕ} {rest : List ℕ} {v : World}
      → p ≡ some s
      → cs ≡ c ∷ rest
      → can_set_up o ≡ true
      → IsListed v rest × IsWired v
      → IsFresh o ls c s w v
      → Accepted o ev ls w cs p (o.handler c v >>= λ u. ok (exhausted u ev, []))

-- the same lists and wires; only connection `c` may differ
record Kin (c : ℕ) (u v : World) : Type 0 where
  free : v.free_connections ≡ u.free_connections
  free_n : v.free_connection_n ≡ u.free_connection_n
  apart : (d : ℕ) → d ≢ c → v.connections d ≡ u.connections d
  reads : (d : ℕ) → (v.connections d).read ≡ (u.connections d).read
  writes : (d : ℕ) → (v.connections d).write ≡ (u.connections d).write

Kin-IsWired : {c : ℕ} {u v : World} → Kin c u v → IsWired u → IsWired v
Kin-IsWired k w = record {
  reads = λ a b t. w.reads a b (sym (k.reads a) ∙ t ∙ k.reads b);
  writes = λ a b t. w.writes a b (sym (k.writes a) ∙ t ∙ k.writes b);
  apart = λ a b t. w.apart a b (sym (k.reads a) ∙ t ∙ k.writes b);
}

Kin-IsListed :
    {c : ℕ} {u v : World} {rest : List ℕ}
    → Kin c u v
    → has c rest ≡ false
    → IsListed u rest
    → IsListed v rest
Kin-IsListed k new l = record {
  list = rw (k.free) (
      Free-frame l.list λ d h.
        let same = k.apart d (λ t. ground arith) in
        (ap (λ (x : Connection). x.fd) same, ap (λ (x : Connection). x.data_of) same));
  count = k.free_n ∙ l.count;
  bounded = l.bounded;
}

-- a connection that is given back is the first free one again
close-IsListed :
    (c : ℕ) (v : World) {rest : List ℕ}
    → has c rest ≡ false
    → suc (length rest) < word
    → IsListed v rest
    → IsListed (close_accepted v c) (c ∷ rest)
close-IsListed c v {rest} new small l =
    let behind : ((close_accepted v c).connections c).data_of ≡ v.free_connections = ground arith in
    record {
      list = free_cons new (ground arith) (
          subst (λ o. Free (close_accepted v c) o rest) (sym behind)
            (Free-frame {w = v} l.list λ d h. ground arith));
      count = ground (arith, l.count);
      bounded = small;
    }

close-IsWired : (c : ℕ) (v : World) → IsWired v → IsWired (close_accepted v c)
close-IsWired c v w = record {
  reads = λ a b t. w.reads a b (ground arith);
  writes = λ a b t. w.writes a b (ground arith);
  apart = λ a b t. w.apart a b (ground arith);
}

branch :
    {o : Outside} {ev : ℕ} {ls : Option ℕ} {w : World} {cs : List ℕ} {p : Option ℕ}
    {x y : Run (World × List ℕ)} (b : Bool)
    → (b ≡ true → Accepted o ev ls w cs p x)
    → (b ≡ false → Accepted o ev ls w cs p y)
    → Accepted o ev ls w cs p (if b then x else y)
branch true h k = h refl
branch false h k = k refl

module _ (o : Outside) (ev : ℕ) (ls : Option ℕ) (w : World) (c s : ℕ) (rest : List ℕ) (u : World)
    (new : has c rest ≡ false) (small : suc (length rest) < word)
    (t : Taken w c rest (some s) u) where
  gone :
      (v : World)
      → can_set_up o ≡ false
      → Kin c u v
      → Accepted o ev ls w (c ∷ rest) (some s) (ok (close_accepted v c, s ∷ []))
  gone v f k =
      given_up s refl refl f
        (
          close-IsListed c v new small (Kin-IsListed k new t.listed),
          close-IsWired c v (Kin-IsWired k t.wired),
        )
        (ground arith)

  same-Kin : Kin c u u
  same-Kin = record {
    free = refl;
    free_n = refl;
    apart = λ d h. refl;
    reads = λ d. refl;
    writes = λ d. refl;
  }

  pool-Kin : Kin c u (with_pool u c o.pool)
  pool-Kin = record {
    free = refl;
    free_n = refl;
    apart = λ d h. ground arith;
    reads = λ d. ground arith;
    writes = λ d. ground arith;
  }

  ready-Kin : Kin c u (prepared (with_pool u c o.pool) c ls)
  ready-Kin = record {
    free = refl;
    free_n = refl;
    apart = λ d h. ground arith;
    reads = λ d. ground arith;
    writes = λ d. ground arith;
  }

  write-at : ((with_pool u c o.pool).connections c).write ≡ (w.connections c).write
  write-at = ground (arith, ap (λ (x : Connection). x.write) t.fresh)

  ready-IsFresh : IsWired w → IsFresh o ls c s w (prepared (with_pool u c o.pool) c ls)
  ready-IsFresh wired = record {
    at_fd = ground (arith, ap (λ (x : Connection). x.fd) t.fresh);
    at_entry = ground arith;
    at_pool = ground arith;
    same_read = ground (arith, ap (λ (x : Connection). x.read) t.fresh);
    same_write = ground (arith, ap (λ (x : Connection). x.write) t.fresh);
    read_event =
        let elsewhere : ((w.connections c).read == (w.connections c).write) ≡ false =
          ground (arith, wired.apart c c) in
        rw (write-at, elsewhere) t.read_event;
    write_event =
        let here : ((w.connections c).write == (w.connections c).write) ≡ true = ground arith in
        rw (write-at, here, t.write_event) refl;
  }

  handed-Accepted :
      IsWired w
      → can_set_up o ≡ true
      → Accepted o ev ls w
          (c ∷ rest)
          (some s)
          (o.handler c (prepared (with_pool u c o.pool) c ls) >>= (λ v. ok (exhausted v ev, [])))
  handed-Accepted wired f =
      handed s refl refl f (Kin-IsListed ready-Kin new t.listed, Kin-IsWired ready-Kin t.wired)
        (ready-IsFresh wired)

  set_up-Accepted : IsWired w → Accepted o ev ls w (c ∷ rest) (some s) (set_up o u ev ls c s)
  set_up-Accepted wired = by_pool o.pool refl
    where
      by_pool :
          (p : Option ℕ)
          → o.pool ≡ p
          → Accepted o ev ls w (c ∷ rest) (some s) (elim p as (λ _. Run (World × List ℕ)) [
            | none ↦ ok (close_accepted u c, s ∷ [])
            | some p ↦
                if not o.has_sockaddr
                then ok (close_accepted (with_pool u c o.pool) c, s ∷ [])
                else if o.addr_ntop && not o.has_text
                then ok (close_accepted (prepared (with_pool u c o.pool) c ls) c, s ∷ [])
                else if o.addr_ntop && not o.printed
                then ok (close_accepted (prepared (with_pool u c o.pool) c ls) c, s ∷ [])
                else o.handler c (prepared (with_pool u c o.pool) c ls)
                  >>= (λ v. ok (exhausted v ev, []))
          ])
      by_pool none e = gone u (rw e refl) same-Kin
      by_pool (some p) e =
          branch (not o.has_sockaddr) (λ h. gone _ (rw e (ground (arith, h))) pool-Kin)
            λ h.
              branch (o.addr_ntop && not o.has_text)
                (λ h'. gone _ (rw e (ground (arith, h, h'))) ready-Kin)
                λ h'.
                  branch (o.addr_ntop && not o.printed)
                    (λ h''. gone _ (rw e (ground (arith, h, h', h''))) ready-Kin)
                    λ h''. handed-Accepted wired (rw e (ground (arith, h, h', h'')))

-- some answer ends the loop
abbrev pub Concludes : List Answer → Type 0
Concludes [] = ⊥
Concludes (aborted ∷ as') = Concludes as'
Concludes (_ ∷ as') = Unit

first-new :
    {w : World} {o : Option ℕ} {c : ℕ} {rest : List ℕ} → Free w o (c ∷ rest) → has c rest ≡ false
first-new (free_cons new closed f) = new

got-Accepted :
    (o : Outside) (ev : ℕ) (ls : Option ℕ) (w : World) (s : ℕ) (cs : List ℕ)
    → IsListed w cs
    → IsWired w
    → (r : Option ℕ × World) → Got w (some s) cs r
    → Accepted o ev ls w cs (some s) (elim (r.0) as (λ _. Run (World × List ℕ)) [
      | none ↦ ok (r.1, s ∷ [])
      | some c ↦ set_up o r.1 ev ls c s
    ])
got-Accepted o ev ls w s cs l wired r got_none = no_connection s refl refl
got-Accepted o ev ls w s cs l wired r (got {c} {cs = rest} {w' = u} t) =
    set_up-Accepted o ev ls w c s rest u (first-new l.list) l.bounded t wired

-- spy_event_accept, once an answer of accept() is not ECONNABORTED. If the answers lead to no socket,
-- nothing changes: the loop ends at EAGAIN, at an error, or at an aborted connection with nothing more to
-- accept. A socket that arrives is closed, and nothing else happens, if there is no free connection. It is
-- closed, and the free connections are what they were, if the pool or something else that the set-up
-- needs is missing. Otherwise the first free connection, with the socket, the listening entry, the new pool
-- and a write event that is ready, goes to the handler, and behind it the listening event has nothing more
-- to accept.
pub accept-Accepted :
    (o : Outside) (ev : ℕ) (ls : Option ℕ) (w : World) (answers : List Answer) (cs : List ℕ)
    → Concludes answers
    → IsListed w cs
    → IsWired w
    → Accepted o ev ls w cs (arrived (w.events ev).available answers) (accept o ev ls answers w)
unfolding accept
accept-Accepted o ev ls w [] cs e l wired = elim e [ ]
accept-Accepted o ev ls w (again ∷ as') cs e l wired = idle refl
accept-Accepted o ev ls w (refused ∷ as') cs e l wired = idle refl
accept-Accepted o ev ls w (aborted ∷ as') cs e l wired = elim (Bool-cases (w.events ev).available) [
  | inl t ↦ rw t (accept-Accepted o ev ls w as' cs e l wired)
  | inr t ↦ rw t (idle refl)
]
accept-Accepted o ev ls w (socket s ∷ as') cs e l wired =
    got-Accepted o ev ls w s cs l wired (get_connection w (some s))
      (get_connection-Taken (some s) cs l wired)
