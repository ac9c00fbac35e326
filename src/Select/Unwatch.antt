-- ===== src/Select/Unwatch.antt =====
-- `spy_select_del_event`.
use mysqlproxy.Base.{
  ap, update, Bool-cases, ℕ, ◌-◌, ◌≤◌, ◌<◌, ◌≡◌, refl, sym, ◌≢◌, ◌↔◌, inl, inr, ◌∙◌, Bool, true,
  false, not, ◌&&◌, ◌||◌, some, arith, ◌==◌, if◌then◌else◌, Option-cases, ltb,
}
use mysqlproxy.Base.Runs.{Returns, returns}
use mysqlproxy.State.{Status, ok_status, World, invalid_index, dec_word, Event, set_event}
use mysqlproxy.Select.{Kind, set_fd, drop_max, fill_place, del_event, dropped_world, fd_setsize}
use mysqlproxy.Select.Watch.{
  fd_of, event_fd-ok, in_set, Watched, Watches, IsWatching, kind_of, b_eq,
}

pub record Dropped (w : World) (e : ℕ) (r : Status × World) : Type 0 where
  pub succeeded : r.0 ≡ ok_status
  pub watching : IsWatching r.1
  pub watched : (y : ℕ) → Watched r.1 y ↔ (Watched w y × (y ≢ e))
  pub deactivated : (r.1.events e).active ≡ false
  pub unset : (r.1.events e).index ≡ invalid_index
  pub same_event :
      (y : ℕ)
      → ((r.1.events y).data_of ≡ (w.events y).data_of)
        × ((r.1.events y).write ≡ (w.events y).write)
  pub same_active : (y : ℕ) → y ≢ e → (r.1.events y).active ≡ (w.events y).active
  pub same_rest :
      (y : ℕ)
      → r.1.events y
        ≡ record (w.events y) { active = (r.1.events y).active; index = (r.1.events y).index }
  pub same_world : r.1 ≡ record w { events = r.1.events; select = r.1.select }
  pub same_connections : r.1.connections ≡ w.connections
  pub same_free : r.1.free_connections ≡ w.free_connections
  pub same_free_n : r.1.free_connection_n ≡ w.free_connection_n

-- an event that differs in `active` and `index` at most
abbrev pub SameRest : Event → Event → Type 0
SameRest a b = b ≡ record a { active = b.active; index = b.index }

SameRest-update :
    (es es' : ℕ → Event) (x : ℕ) (v : Event)
    → ((y : ℕ) → SameRest (es y) (es' y))
    → SameRest (es x) v
    → (y : ℕ) → SameRest (es y) (update es' x v y)
SameRest-update es es' x v h h' y = elim (Bool-cases (y == x)) [
  | inl t ↦ let same : y ≡ x = ground arith in rw (update, same, self x) h'
  | inr t ↦ rw (update, t) (h y)
]
  where
    self : (z : ℕ) → (z == z) ≡ true
    self z = ground arith

SameRest-fill :
    (es : ℕ → Event) (w : World) (i : ℕ)
    → ((y : ℕ) → SameRest (es y) (w.events y))
    → (y : ℕ) → SameRest (es y) ((fill_place w i).events y)
SameRest-fill es w i h y =
    let last = w.select.event_index (dec_word w.select.nevents) in
    elim (Bool-cases (ltb i (dec_word w.select.nevents))) [
      | inl t ↦ rw t (
          SameRest-update es w.events last (record (w.events last) { index = i }) h
            (ap (λ (x : Event). record x { index = i }) (h last)) y)
      | inr t ↦ rw t (h y)
    ]

module _ {w : World} (v : IsWatching w) (e f : ℕ) (at_fd : fd_of w e ≡ some f)
    (here : Watched w e) where
  abbrev after : World
  after = dropped_world w e (kind_of (w.events e).write) f

  one_less : dec_word w.select.nevents ≡ w.select.nevents - 1
  one_less = omega (arith, here.0, v.fits, v.small)

  last-listed :
      (w.events (w.select.event_index (w.select.nevents - 1))).index ≡ w.select.nevents - 1
  last-listed = v.listed (w.select.nevents - 1) (omega (arith, here.0))

  nevents-after : after.select.nevents ≡ w.select.nevents - 1
  nevents-after = ground (arith, one_less)

  after-fd : (y : ℕ) → fd_of after y ≡ fd_of w y
  after-fd y = ground arith

  after-old : (y : ℕ) → Watched w y → y ≢ e → Watched after y
  after-old y h ne = ground (arith, one_less, last-listed, here)

  after-inv : (y : ℕ) → Watched after y → Watched w y × (y ≢ e)
  after-inv y h = ground (arith, one_less, last-listed, here, v.small, v.fits)

  write-after : (y : ℕ) → (after.events y).write ≡ (w.events y).write
  write-after y = ground arith

  after-Watches : (b : Bool) (g y : ℕ) → Watches w b g y → y ≢ e → Watches after b g y
  after-Watches b g y h ne = (after-old y h.0 ne, write-after y ∙ h.1, after-fd y ∙ h.2)

  after-Watches-inv : (b : Bool) (g y : ℕ) → Watches after b g y → Watches w b g y × (y ≢ e)
  after-Watches-inv b g y h =
      let (old, ne) = after-inv y h.0 in
      ((old, sym (write-after y) ∙ h.1, sym (after-fd y) ∙ h.2), ne)

  in_set-after :
      (b : Bool) (g : ℕ)
      → in_set after b g ≡ (if b_eq b (w.events e).write && g == f then false else in_set w b g)
  in_set-after true g = ground arith
  in_set-after false g = ground arith

  after-listed :
      (i : ℕ)
      → i < w.select.nevents - 1
      → ((after.events (after.select.event_index i)).index ≡ i)
        × ((after.events (after.select.event_index i)).active ≡ true)
  after-listed i p =
      ground (
        arith,
        one_less,
        last-listed,
        v.listed i,
        v.active i,
        v.active (w.select.nevents - 1),
        here,
      )

  after-needed : (b : Bool) (g : ℕ) → in_set after b g ≡ true → (y : ℕ) × Watches after b g y
  after-needed b g h =
      let (y, z) = v.needed b g (ground (arith, in_set-after b g)) in
      (y, after-Watches b g y z λ t. ground (arith, in_set-after b g))

  after-highest :
      (m y g : ℕ) → after.select.max_fd ≡ some m → Watched after y → fd_of after y ≡ some g → g ≤ m
  after-highest m y g h h' h'' = elim (Option-cases w.select.max_fd) [
    | inl t ↦ ground (arith, one_less)
    | inr (n, t) ↦ ground (arith, one_less, v.highest n y g, after-inv y h', after-fd y)
  ]

  after-IsWatching : IsWatching after
  after-IsWatching =
      let small = v.small in
      let fits = v.fits in
      record {
        fits = ground (arith, one_less);
        small = ground arith;
        listed = λ i p. (after-listed i (rw nevents-after at p)).0;
        active = λ i p. (after-listed i (rw nevents-after at p)).1;
        opened = λ y h. ground (arith, v.opened y, after-fd y, after-inv y h);
        covered = λ b g y h.
            let (old, ne) = after-Watches-inv b g y h in
            ground (arith, in_set-after b g, v.covered b g y old, v.alone b g y e old, here, at_fd);
        needed = after-needed;
        alone = λ b g y y' h h'.
            v.alone b g y y' (after-Watches-inv b g y h).0 (after-Watches-inv b g y' h').0;
        settable = λ y g h h'. v.settable y g (after-inv y h).0 (sym (after-fd y) ∙ h');
        highest = after-highest;
      }

dropped-SameRest :
    (w : World) (e f : ℕ) (kind : Kind) (y : ℕ)
    → SameRest (w.events y) ((dropped_world w e kind f).events y)
dropped-SameRest w e f kind y =
    let idle = set_event w e (record (w.events e) { active = false }) in
    let s = set_fd w.select kind f false in
    let w' =
      fill_place (record idle { select = record s { max_fd = drop_max s.max_fd f } })
        (w.events e).index in
    let filled =
      SameRest-fill w.events (record idle { select = record s { max_fd = drop_max s.max_fd f } })
        (w.events e).index
        (SameRest-update w.events w.events e (record (w.events e) { active = false }) (λ z. refl)
          refl) in
    SameRest-update w.events w'.events e (record (w'.events e) { index = invalid_index }) filled
      (ap (λ (x : Event). record x { index = invalid_index }) (filled e)) y

-- Deleting a watched event succeeds: the event is neither watched nor active any more, all the others
-- stay watched and active or not as they were, and the module's invariant holds again. Of the events
-- only `active` and `index` can have changed, and of the rest of the state only what the module keeps.
pub del_event-Dropped :
    {w : World} (e f : ℕ)
    → IsWatching w
    → fd_of w e ≡ some f
    → Watched w e
    → Returns (Dropped w e) (del_event w e (kind_of (w.events e).write))
unfolding del_event
del_event-Dropped {w} e f v at_fd here =
    let set : ((w.events e).index == invalid_index) ≡ false =
      ground (arith, here, v.fits, v.small) in
    let in_range = v.settable e f here at_fd in
    let safe : (not (ltb f fd_setsize)
          || (ltb (w.events e).index (dec_word w.select.nevents)
              && not (ltb (dec_word w.select.nevents) w.select.room)))
        ≡ false =
      ground (arith, one_less v e f at_fd here, here, v.fits) in
    rw (set, event_fd-ok w e at_fd, safe)
      (returns (record {
        succeeded = refl;
        watching = after-IsWatching v e f at_fd here;
        watched = λ y. (after-inv v e f at_fd here y, λ h. after-old v e f at_fd here y h.0 h.1);
        deactivated = ground arith;
        unset = ground arith;
        same_event = λ y. ground arith;
        same_active = λ y t. ground arith;
        same_rest = λ y. dropped-SameRest w e f (kind_of (w.events e).write) y;
        same_world = ground arith;
        same_connections = ground arith;
        same_free = ground arith;
        same_free_n = ground arith;
      }))
