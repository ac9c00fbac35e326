-- ===== src/Connections/Close.antt =====
-- `spy_close_connection`.
use mysqlproxy.Base.{
  subst, ap, ◌∙◌, sym, ℕ, suc, ◌<◌, ◌≡◌, ◌≢◌, ◌⊎◌, inl, inr, ◌↔◌, refl, Bool, true, false, Option,
  none, some, List, ◌∷◌, arith, Bool-cases,
}
use mysqlproxy.Base.Runs.{Run, ok, Returns, returns, Returns-then}
use mysqlproxy.State.{World, word}
use mysqlproxy.Posted.Chain.{has}
use mysqlproxy.Posted.Process.{length}
use mysqlproxy.Select.Watch.{in_set, fd_of, kind_of, Watched, Watches, IsWatching}
use mysqlproxy.Select.Unwatch.{del_event-Dropped}
use mysqlproxy.Connections.{
  closing, mark_closed, free_connection, without_fd, unwatch, close_connection,
}
use mysqlproxy.Connections.Free.{Free, Free-frame, free_cons, IsListed}

-- what `spy_close_connection` does to the event `e` of a connection
pub record Unwatched (w : World) (e : ℕ) (w' : World) : Type 0 where
  pub watching : IsWatching w'
  pub watched : (y : ℕ) → Watched w' y ↔ (Watched w y × (y ≢ e))
  pub same_event :
      (y : ℕ)
      → ((w'.events y).data_of ≡ (w.events y).data_of) × ((w'.events y).write ≡ (w.events y).write)
  pub same_active : (y : ℕ) → y ≢ e → (w'.events y).active ≡ (w.events y).active
  pub same_connections : w'.connections ≡ w.connections
  pub same_free : w'.free_connections ≡ w.free_connections
  pub same_free_n : w'.free_connection_n ≡ w.free_connection_n

unwatch-Unwatched :
    {w : World} (e f : ℕ) (b : Bool)
    → IsWatching w
    → fd_of w e ≡ some f
    → (w.events e).write ≡ b
    → ((w.events e).active ≡ true) ↔ Watched w e
    → Returns (Unwatched w e) (unwatch w e (kind_of b))
unfolding unwatch
unwatch-Unwatched {w} e f b v at_fd kind active = elim (Bool-cases (w.events e).active) [
  | inr off ↦ rw off (
      returns (record {
        watching = v;
        watched = λ y. (λ h. (h, λ t. ground (arith, active.1)), λ h. h.0);
        same_event = λ y. (refl, refl);
        same_active = λ y t. refl;
        same_connections = refl;
        same_free = refl;
        same_free_n = refl;
      }))
  | inl on ↦
      rw (on, sym kind)
        (Returns-then (del_event-Dropped e f v at_fd (active.0 on)) (λ r d. returns (record {
          watching = d.watching;
          watched = d.watched;
          same_event = d.same_event;
          same_active = d.same_active;
          same_connections = d.same_connections;
          same_free = d.same_free;
          same_free_n = d.same_free_n;
        })))
]

-- an open connection with its two events
pub record IsOpen (w : World) (c f : ℕ) : Type 0 where
  pub at_fd : (w.connections c).fd ≡ some f
  pub read_data : (w.events (w.connections c).read).data_of ≡ some c
  pub write_data : (w.events (w.connections c).write).data_of ≡ some c
  pub read_kind : (w.events (w.connections c).read).write ≡ false
  pub write_kind : (w.events (w.connections c).write).write ≡ true
  pub read_active :
      ((w.events (w.connections c).read).active ≡ true) ↔ Watched w (w.connections c).read
  pub write_active :
      ((w.events (w.connections c).write).active ≡ true) ↔ Watched w (w.connections c).write
  pub only :
      (e : ℕ)
      → Watched w e
      → (w.events e).data_of ≡ some c
      → (e ≡ (w.connections c).read) ⊎ (e ≡ (w.connections c).write)

-- what `spy_close_connection` makes of connection `c`
pub record Closed (w : World) (c : ℕ) (cs : List ℕ) (r : Option ℕ × World) : Type 0 where
  pub descriptor : r.0 ≡ (w.connections c).fd
  pub watching : IsWatching r.1
  pub watched :
      (y : ℕ)
      → Watched r.1 y ↔ (Watched w y × (y ≢ (w.connections c).read) × (y ≢ (w.connections c).write))
  pub read_closed : (r.1.events (w.connections c).read).closed ≡ true
  pub write_closed : (r.1.events (w.connections c).write).closed ≡ true
  pub no_fd : (r.1.connections c).fd ≡ none
  pub listed : IsListed r.1 (c ∷ cs)

-- the end of `spy_close_connection`, behind the removal of the two events
abbrev ended : World → ℕ → ℕ → ℕ → World
ended w c r s = without_fd (free_connection (mark_closed (mark_closed w r) s) c) c

module _ {w : World} (v : IsWatching w) (c r s : ℕ)
    (none_left : (y : ℕ) → Watched w y → (w.events y).data_of ≢ some c) where
  ended-Watched-inv : (y : ℕ) → Watched (ended w c r s) y → Watched w y
  ended-Watched-inv y h = ground arith

  ended-fd : (y : ℕ) → Watched w y → fd_of (ended w c r s) y ≡ fd_of w y
  ended-fd y h =
      let same_data : ((ended w c r s).events y).data_of ≡ (w.events y).data_of = ground arith in
      ap
        (λ (o : Option ℕ). elim o as (λ _. Option ℕ) [
          | none ↦ none
          | some d ↦ ((ended w c r s).connections d).fd
        ])
        same_data
      ∙ go (w.events y).data_of (none_left y h)
    where
      go :
          (o : Option ℕ)
          → o ≢ some c
          → elim o as (λ _. Option ℕ) [ none ↦ none | some d ↦ ((ended w c r s).connections d).fd ]
            ≡ elim o as (λ _. Option ℕ) [ none ↦ none | some d ↦ (w.connections d).fd ]
      go none t = refl
      go (some d) t = ground arith

  ended-Watches-inv : (b : Bool) (g y : ℕ) → Watches (ended w c r s) b g y → Watches w b g y
  ended-Watches-inv b g y h =
      let old = ended-Watched-inv y h.0 in (old, ground arith, sym (ended-fd y old) ∙ h.2)

  ended-Watched : (y : ℕ) → Watched w y → Watched (ended w c r s) y
  ended-Watched y h = (ground arith, ground arith)

  ended-Watches : (b : Bool) (g y : ℕ) → Watches w b g y → Watches (ended w c r s) b g y
  ended-Watches b g y (h, h', h'') = (ended-Watched y h, ground arith, ended-fd y h ∙ h'')

  in_set-ended : (b : Bool) (g : ℕ) → in_set (ended w c r s) b g ≡ in_set w b g
  in_set-ended true g = refl
  in_set-ended false g = refl

  ended-IsWatching : IsWatching (ended w c r s)
  ended-IsWatching = record {
    fits = v.fits;
    small = v.small;
    listed = λ i p. ground (arith, v.listed i);
    active = λ i p. ground (arith, v.active i);
    opened = λ y h. ground (arith, v.opened y, ended-fd y, ended-Watched-inv y h);
    covered = λ b g y h. in_set-ended b g ∙ v.covered b g y (ended-Watches-inv b g y h);
    needed = λ b g h.
        let (y, at) = v.needed b g (sym (in_set-ended b g) ∙ h) in (y, ended-Watches b g y at);
    alone =
        λ b g y y' h h'. v.alone b g y y' (ended-Watches-inv b g y h) (ended-Watches-inv b g y' h');
    settable = λ y g h h'.
        v.settable y g (ended-Watched-inv y h) (sym (ended-fd y (ended-Watched-inv y h)) ∙ h');
    highest = λ m y g t h h'.
        v.highest m y g t (ended-Watched-inv y h) (sym (ended-fd y (ended-Watched-inv y h)) ∙ h');
  }

module _ {w a b : World} {c f : ℕ} {cs : List ℕ} (o : IsOpen w c f) (l : IsListed w cs)
    (busy : has c cs ≡ false) (small : suc (length cs) < word)
    (first : Unwatched w (w.connections c).read a)
    (second : Unwatched a (w.connections c).write b) where
  left :
      (y : ℕ)
      → Watched b y ↔ (Watched w y × (y ≢ (w.connections c).read) × (y ≢ (w.connections c).write))
  left y = (
    λ h.
        let (h', t) = (second.watched y).0 h in
        let (h'', t') = (first.watched y).0 h' in (h'', t', t),
    λ h. (second.watched y).1 ((first.watched y).1 (h.0, h.1), h.2),
  )

  same_connections : b.connections ≡ w.connections
  same_connections = second.same_connections ∙ first.same_connections

  no_event_left : (y : ℕ) → Watched b y → (b.events y).data_of ≢ some c
  no_event_left y h t =
      let (h', ne, ne') = (left y).0 h in
      ground
        (arith, o.only y h' (sym (first.same_event y).0 ∙ sym (second.same_event y).0 ∙ t), ne, ne')

  ended-Closed :
      Closed w c cs ((w.connections c).fd, ended b c (w.connections c).read (w.connections c).write)
  ended-Closed =
      let next : ((ended b c (w.connections c).read (w.connections c).write).connections c).data_of
          ≡ w.free_connections =
        ground (arith, second.same_free, first.same_free) in
      record {
        descriptor = refl;
        watching =
            ended-IsWatching second.watching c (w.connections c).read (w.connections c).write
              no_event_left;
        watched = λ y. (
          λ h. (left y).0 (
              ended-Watched-inv second.watching c (w.connections c).read (w.connections c).write
                no_event_left y h),
          λ h.
              ended-Watched second.watching c (w.connections c).read (w.connections c).write
                no_event_left y ((left y).1 h),
        );
        read_closed = ground arith;
        write_closed = ground arith;
        no_fd = ground arith;
        listed = record {
          list = free_cons busy (ground arith) (
              subst (λ o'. Free (ended b c (w.connections c).read (w.connections c).write) o' cs)
                (sym next) (Free-frame l.list (λ d h. ground (arith, same_connections))));
          count = omega (arith, second.same_free_n, first.same_free_n, l.count);
          bounded = small;
        };
      }

closing-open :
    (w : World) (c : ℕ) {f : ℕ} → (w.connections c).fd ≡ some f → close_connection w c ≡ closing w c
unfolding close_connection
closing-open w c t =
    ap
      (λ (o : Option ℕ). elim o as (λ _. Run (Option ℕ × World)) [
        | none ↦ ok (none, w)
        | some f ↦ closing w c
      ])
      t

-- Closing an open connection succeeds and gives its descriptor: its two events are marked closed and
-- are not watched any more, all other events stay watched and the select() module's invariant holds;
-- the connection has no descriptor any more and is the first of the free ones.
pub close_connection-Closed :
    {w : World} {cs : List ℕ} (c f : ℕ)
    → IsWatching w
    → IsOpen w c f
    → IsListed w cs
    → has c cs ≡ false
    → suc (length cs) < word
    → Returns (Closed w c cs) (close_connection w c)
unfolding closing
close_connection-Closed {w} {cs} c f v o l busy small =
    let open_read : fd_of w (w.connections c).read ≡ some f =
      ground (arith, o.read_data, o.at_fd) in
    let open_write : fd_of w (w.connections c).write ≡ some f =
      ground (arith, o.write_data, o.at_fd) in
    let apart : (w.connections c).write ≢ (w.connections c).read =
      ground (arith, o.read_kind, o.write_kind) in
    rw (closing-open w c o.at_fd, closing)
      (Returns-then
        (unwatch-Unwatched (w.connections c).read f false v open_read o.read_kind o.read_active)
        (λ a first.
          Returns-then
            (unwatch-Unwatched (w.connections c).write f true first.watching
              (ground (arith, (first.same_event (w.connections c).write).0, first.same_connections))
              ((first.same_event (w.connections c).write).1 ∙ o.write_kind)
              (
                λ t. (first.watched (w.connections c).write).1 (
                  o.write_active.0 (sym (first.same_active (w.connections c).write apart) ∙ t),
                  apart,
                ),
                λ t.
                    first.same_active (w.connections c).write apart
                    ∙ o.write_active.1 ((first.watched (w.connections c).write).0 t).0,
              ))
            (λ b second. returns (ended-Closed o l busy small first second))))
