-- ===== src/Connections/Free.antt =====
-- The list of free connections, and `spy_get_connection`.
use mysqlproxy.Base.{
  ap, ◌∙◌, ℕ, suc, ◌<◌, ◌≡◌, ◌≢◌, refl, true, false, Option, none, some, List, [], ◌∷◌, arith,
}
use mysqlproxy.State.{World, word}
use mysqlproxy.Posted.Chain.{has}
use mysqlproxy.Posted.Process.{length}
use mysqlproxy.Connections.{taken, get_connection, new_event, new_connection}

-- from `o` on, `data` leads through `cs` and ends
pub data Free (w : World) : Option ℕ → List ℕ → Type 0 where
  free_nil : Free w none []
  free_cons :
      {c : ℕ} {cs : List ℕ}
      → has c cs ≡ false
      → (w.connections c).fd ≡ none
      → Free w (w.connections c).data_of cs
      → Free w (some c) (c ∷ cs)

-- `cs` are the free connections, and the counter counts them
pub record IsListed (w : World) (cs : List ℕ) : Type 0 where
  pub list : Free w w.free_connections cs
  pub count : w.free_connection_n ≡ length cs
  pub bounded : length cs < word

-- no two connections share an event
pub record IsWired (w : World) : Type 0 where
  pub reads : (c d : ℕ) → (w.connections c).read ≡ (w.connections d).read → c ≡ d
  pub writes : (c d : ℕ) → (w.connections c).write ≡ (w.connections d).write → c ≡ d
  pub apart : (c d : ℕ) → (w.connections c).read ≢ (w.connections d).write

pub Free-frame :
    {w w' : World} {o : Option ℕ} {cs : List ℕ}
    → Free w o cs
    → ((c : ℕ)
        → has c cs ≡ true
        → ((w'.connections c).fd ≡ (w.connections c).fd)
          × ((w'.connections c).data_of ≡ (w.connections c).data_of))
    → Free w' o cs
Free-frame free_nil same = free_nil
Free-frame {w} {w'} (free_cons {c} {cs} new closed rest) same =
    let (t, t') = same c (ground arith) in
    free_cons new (t ∙ closed) (rw t' (Free-frame rest (λ d h. same d (ground arith))))

-- what `spy_get_connection` makes of the first free connection
pub record Taken (w : World) (c : ℕ) (cs : List ℕ) (s : Option ℕ) (w' : World) : Type 0 where
  pub listed : IsListed w' cs
  pub wired : IsWired w'
  pub fresh : w'.connections c ≡ new_connection (w.connections c) s
  pub read_event : w'.events (w.connections c).read ≡ new_event c false
  pub write_event : w'.events (w.connections c).write ≡ new_event c true
  pub same_connections : (d : ℕ) → d ≢ c → w'.connections d ≡ w.connections d
  pub same_events :
      (e : ℕ) → e ≢ (w.connections c).read → e ≢ (w.connections c).write → w'.events e ≡ w.events e

-- what `spy_get_connection` gives and leaves, where `cs` are the free connections
pub data Got (w : World) (s : Option ℕ) : List ℕ → Option ℕ × World → Type 0 where
  got_none : Got w s [] (none, w)
  got : {c : ℕ} {cs : List ℕ} {w' : World} → Taken w c cs s w' → Got w s (c ∷ cs) (some c, w')

module _ {w : World} (wired : IsWired w) (c : ℕ) (cs : List ℕ) (s : Option ℕ)
    (new : has c cs ≡ false) (rest : Free w (w.connections c).data_of cs) where
  rest-taken : Free (taken w c s) (w.connections c).data_of cs
  rest-taken = Free-frame rest (λ d h. ground arith)

  taken-Taken :
      w.free_connection_n ≡ suc (length cs) → suc (length cs) < word → Taken w c cs s (taken w c s)
  taken-Taken n small = record {
    listed = record { list = rest-taken; count = omega arith; bounded = omega arith };
    wired = record {
      reads = λ a b t. wired.reads a b (ground arith);
      writes = λ a b t. wired.writes a b (ground arith);
      apart = λ a b t. wired.apart a b (ground arith);
    };
    fresh = ground arith;
    read_event = ground (arith, wired.apart c c);
    write_event = ground arith;
    same_connections = λ d t. ground arith;
    same_events = λ e t t'. ground arith;
  }

pub get-some :
    (w : World) (s : Option ℕ) {c : ℕ}
    → w.free_connections ≡ some c
    → get_connection w s ≡ (some c, taken w c s)
unfolding get_connection
get-some w s t =
    ap
      (λ (o : Option ℕ). elim o as (λ _. Option ℕ × World) [
        | none ↦ (none, w)
        | some c ↦ (some c, taken w c s)
      ])
      t

get-none : (w : World) (s : Option ℕ) → w.free_connections ≡ none → get_connection w s ≡ (none, w)
unfolding get_connection
get-none w s t =
    ap
      (λ (o : Option ℕ). elim o as (λ _. Option ℕ × World) [
        | none ↦ (none, w)
        | some c ↦ (some c, taken w c s)
      ])
      t

-- Without a free connection `spy_get_connection` changes nothing and gives none. Otherwise it takes
-- the first free connection off the list, keeps the connection's two events and clears them, as it
-- clears the connection; they belong to it, are not watched, and only the second one is for writing.
-- No other connection and no other event changes.
pub get_connection-Taken :
    {w : World} (s : Option ℕ) (cs : List ℕ)
    → IsListed w cs
    → IsWired w
    → Got w s cs (get_connection w s)
get_connection-Taken {w} s cs v wired = go w.free_connections cs refl v.list v.count v.bounded
  where
    go :
        (o : Option ℕ) (cs : List ℕ)
        → w.free_connections ≡ o
        → Free w o cs
        → w.free_connection_n ≡ length cs
        → length cs < word
        → Got w s cs (get_connection w s)
    go _ _ t free_nil n small = rw (get-none w s t) got_none
    go _ _ t (free_cons {c} {cs} new closed rest) n small =
        rw (get-some w s t) (got (taken-Taken wired c cs s new rest n small))
