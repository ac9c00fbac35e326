-- ===== src/Select/Start.antt =====
-- event/module/spy_event_select.c: how the module starts, for the first configuration or for one that
-- follows another, and how it is taken down.
use mysqlproxy.Base.{
  ℕ, ◌∙◌, sym, ◌*◌, ◌/◌, ◌%◌, ◌≤◌, ◌<◌, ◌≡◌, ◌⊎◌, inl, inr, refl, Bool, true, false, not, Option,
  none, some, ltb, if◌then◌else◌, arith,
}
use mysqlproxy.Base.Runs.{Run, ok, fault, Returns, returns}
use mysqlproxy.State.{Status, ok_status, error_status, Select, World, invalid_index, word}
use mysqlproxy.Select.Watch.{Watched, Watches, IsWatching, in_set}

-- FD_ZERO on the master sets, and no events
abbrev pub zero_sets : Select → Select
zero_sets s = record s { master_read = λ f. false; master_write = λ f. false; nevents = 0 }

-- `old_global == NULL || old_global->connection_n < global->connection_n`
abbrev pub allocates : Option ℕ → ℕ → Bool
allocates none n = true
allocates (some m) n = ltb m n

-- `spy_memcpy(index, event_index, ...)` on new memory
abbrev pub copy_index : (ℕ → ℕ) → Select → ℕ → ℕ
copy_index stale s i = if ltb i s.nevents then s.event_index i else stale i

-- `spy_select_init`: `old` is the number of connections of the configuration before, if any, `present`
-- whether `event_index` is set, `got` whether there is memory, which holds `stale`. Without the
-- allocation the local variable `index` has no value.
unfoldable pub init : Option ℕ → (present got : Bool) → (ℕ → ℕ) → World → Run (Status × World)
init old present got stale w =
    let s = if present then w.select else zero_sets w.select in
    let places = (8 * 2 * w.connection_n % word) / 8 in
    if not (allocates old w.connection_n)
    then fault
    else if not got
    then ok (error_status, record w { select = s })
    else if not present
    then ok (
      ok_status,
      record w { select = record s { event_index = stale; room = places; max_fd = none } },
    )
    else if ltb places s.nevents
    then fault
    else ok (
      ok_status,
      record w {
        select = record s { event_index = copy_index stale s; room = places; max_fd = none };
      },
    )

-- `spy_select_done`, which leaves `event_index` NULL
abbrev pub done : World → World
done w = record w { select = record w.select { room = 0 } }

-- what a start answers, and leaves
abbrev pub IsStarted : (present got : Bool) → World → Status × World → Type 0
IsStarted present got w (t, w') =
    ((got ≡ false) × (t ≡ error_status))
    ⊎ ((t ≡ ok_status)
        × IsWatching w'
        × (w'.select.room ≡ 2 * w.connection_n)
        × (present ≡ true → (e : ℕ) → Watched w e → Watched w' e)
        × (present ≡ false → (e : ℕ) → ¬ Watched w' e))

places-room : (n : ℕ) → 2 * n < invalid_index → (8 * 2 * n % word) / 8 ≡ 2 * n
places-room n h = omega (arith, h)

no_fds :
    (w : World)
    → ((f : ℕ) → w.select.master_read f ≡ false)
    → ((f : ℕ) → w.select.master_write f ≡ false)
    → (b : Bool) (f : ℕ) → ¬ (in_set w b f ≡ true)
no_fds w r v false f t = ground (arith, r f, t)
no_fds w r v true f t = ground (arith, v f, t)

-- the world at the first start
abbrev fresh : World → (ℕ → ℕ) → ℕ → World
fresh w stale room = record w {
  select = record (zero_sets w.select) { event_index = stale; room = room; max_fd = none };
}

fresh-IsWatching :
    (w : World) (stale : ℕ → ℕ) (room : ℕ) → room < invalid_index → IsWatching (fresh w stale room)
fresh-IsWatching w stale room h = record {
  fits = omega arith;
  small = h;
  listed = λ i p. absurd (omega (arith, p));
  active = λ i p. absurd (omega (arith, p));
  opened = λ e v z. omega (arith, v.0);
  covered = λ b f e v. absurd (omega (arith, v.0.0));
  needed = λ b f t. absurd (no_fds (fresh w stale room) (λ g. refl) (λ g. refl) b f t);
  alone = λ b f e e' u v. absurd (omega (arith, u.0.0));
  settable = λ e f v u. absurd (omega (arith, v.0));
  highest = λ m e f t v u. absurd (omega (arith, v.0));
}

-- the world after the index has been copied to more room
abbrev grown : World → (ℕ → ℕ) → ℕ → World
grown w stale room = record w {
  select = record w.select { event_index = copy_index stale w.select; room = room; max_fd = none };
}

copy_index-same :
    (w : World) (stale : ℕ → ℕ) (i : ℕ)
    → i < w.select.nevents
    → copy_index stale w.select i ≡ w.select.event_index i
copy_index-same w stale i h = ground (arith, h)

module _ (w : World) (stale : ℕ → ℕ) (room : ℕ) where
  to_grown : (e : ℕ) → Watched w e → Watched (grown w stale room) e
  to_grown e (p, q) = (p, copy_index-same w stale (w.events e).index p ∙ q)

  from_grown : (e : ℕ) → Watched (grown w stale room) e → Watched w e
  from_grown e (p, q) = (p, sym (copy_index-same w stale (w.events e).index p) ∙ q)

  grown_set : (b : Bool) (f : ℕ) → in_set (grown w stale room) b f ≡ in_set w b f
  grown_set false f = refl
  grown_set true f = refl

  Watches-grown : (b : Bool) (f e : ℕ) → Watches w b f e → Watches (grown w stale room) b f e
  Watches-grown b f e (p, q, r) = (to_grown e p, q, r)

  grown-Watches : (b : Bool) (f e : ℕ) → Watches (grown w stale room) b f e → Watches w b f e
  grown-Watches b f e (p, q, r) = (from_grown e p, q, r)

  grown-IsWatching :
      IsWatching w
      → w.select.nevents ≤ room
      → room < invalid_index
      → IsWatching (grown w stale room)
  grown-IsWatching v fits small = record {
    fits = fits;
    small = small;
    listed = λ i p. rw (copy_index-same w stale i p) (v.listed i p);
    active = λ i p. rw (copy_index-same w stale i p) (v.active i p);
    opened = λ e z. v.opened e (from_grown e z);
    covered = λ b f e z. grown_set b f ∙ v.covered b f e (grown-Watches b f e z);
    needed =
        λ b f t. let (e, z) = v.needed b f (sym (grown_set b f) ∙ t) in (e, Watches-grown b f e z);
    alone = λ b f e e' x y. v.alone b f e e' (grown-Watches b f e x) (grown-Watches b f e' y);
    settable = λ e f x y. v.settable e f (from_grown e x) y;
    highest = λ m e f t. cc;
  }

-- Starting the module ends, for a first configuration or one with more connections than the one before,
-- if the events that are watched fit in the room for the new one, which is smaller than the invalid
-- index. It fails only without memory. Otherwise the module watches soundly, with room for two events of each
-- connection: what was watched before still is, and at a first start nothing is.
pub init-IsStarted :
    (old : Option ℕ) (present got : Bool) (stale : ℕ → ℕ) (w : World)
    → (present ≡ true → IsWatching w × (w.select.nevents ≤ 2 * w.connection_n))
    → allocates old w.connection_n ≡ true
    → 2 * w.connection_n < invalid_index
    → Returns (IsStarted present got w) (init old present got stale w)
unfolding init
init-IsStarted old present false stale w v a h = rw a (returns (inl (refl, refl)))
init-IsStarted old false true stale w v a h =
    rw (a, places-room w.connection_n h)
      (returns (
        inr (
          refl,
          fresh-IsWatching w stale (2 * w.connection_n) h,
          refl,
          (λ z. cc),
          λ z e u. omega (arith, u.0),
        )))
init-IsStarted old true true stale w v a h =
    let (watching, fits) = v refl in
    let no_overrun : ltb (2 * w.connection_n) w.select.nevents ≡ false = ground (arith, fits) in
    rw (a, places-room w.connection_n h, no_overrun)
      (returns (
        inr (
          refl,
          grown-IsWatching w stale (2 * w.connection_n) watching fits h,
          refl,
          λ z. to_grown w stale (2 * w.connection_n),
          λ z. cc,
        )))
