-- ===== src/Select/Watch.antt =====
-- What the select() module keeps true of the events that it watches, and `spy_select_add_event`.
use native.Mathlib.Decide.{ℕ_discrete}
use mysqlproxy.Base.{
  ℕ, ◌≤◌, ◌<◌, ◌≡◌, refl, sym, ◌≢◌, ◌↔◌, ◌⊎◌, inl, inr, ◌∙◌, Bool, true, false, not, ◌&&◌, Option,
  none, some, arith, ◌==◌, if◌then◌else◌, Bool-cases, Option-cases, ltb,
}
use mysqlproxy.Base.Runs.{ok, Returns, returns}
use mysqlproxy.State.{Status, ok_status, World, invalid_index, event_fd}
use mysqlproxy.Select.{
  Kind, read_event, write_event, wrong_kind, fd_setsize, add_event, watched_world,
}

-- the descriptor of an event's connection
abbrev pub fd_of : World → ℕ → Option ℕ
fd_of w e = elim (w.events e).data_of [ none ↦ none | some c ↦ (w.connections c).fd ]

pub event_fd-ok : (w : World) (e : ℕ) {f : ℕ} → fd_of w e ≡ some f → event_fd w e ≡ ok f
event_fd-ok w e h = ground arith

-- the master set of the read events, or of the write events
abbrev pub in_set : World → Bool → ℕ → Bool
in_set w false f = w.select.master_read f
in_set w true f = w.select.master_write f

-- `event_index` lists the event
abbrev pub Watched : World → ℕ → Type 0
Watched w e =
    ((w.events e).index < w.select.nevents) × (w.select.event_index (w.events e).index ≡ e)

-- a watched event that reads, or writes, the descriptor
abbrev pub Watches : World → Bool → ℕ → ℕ → Type 0
Watches w b f e = Watched w e × ((w.events e).write ≡ b) × (fd_of w e ≡ some f)

pub record IsWatching (w : World) : Type 0 where
  pub fits : w.select.nevents ≤ w.select.room
  pub small : w.select.room < invalid_index
  pub listed : (i : ℕ) → i < w.select.nevents → (w.events (w.select.event_index i)).index ≡ i
  pub active : (i : ℕ) → i < w.select.nevents → (w.events (w.select.event_index i)).active ≡ true
  pub opened : (e : ℕ) → Watched w e → fd_of w e ≢ none
  pub covered : (b : Bool) (f e : ℕ) → Watches w b f e → in_set w b f ≡ true
  pub needed : (b : Bool) (f : ℕ) → in_set w b f ≡ true → (e : ℕ) × Watches w b f e
  pub alone : (b : Bool) (f e e' : ℕ) → Watches w b f e → Watches w b f e' → e ≡ e'
  pub settable : (e f : ℕ) → Watched w e → fd_of w e ≡ some f → f < fd_setsize
  pub highest : (m e f : ℕ) → w.select.max_fd ≡ some m → Watched w e → fd_of w e ≡ some f → f ≤ m

abbrev pub b_eq : Bool → Bool → Bool
b_eq true b = b
b_eq false b = not b

abbrev pub kind_of : Bool → Kind
kind_of true = write_event
kind_of false = read_event

pub record Added (w : World) (e : ℕ) (r : Status × World) : Type 0 where
  pub succeeded : r.0 ≡ ok_status
  pub watching : IsWatching r.1
  pub watched : (y : ℕ) → Watched r.1 y ↔ ((y ≡ e) ⊎ Watched w y)
  pub activated : (r.1.events e).active ≡ true

module _ {w : World} (v : IsWatching w) (e f : ℕ) (at_fd : fd_of w e ≡ some f)
    (new : (w.events e).index ≡ invalid_index) (room : w.select.nevents < w.select.room)
    (free : (y : ℕ) → ¬ Watches w (w.events e).write f y) (in_range : f < fd_setsize) where
  abbrev after : World
  after = watched_world w e (kind_of (w.events e).write) f

  after-new : Watched after e
  after-new = ground arith

  after-old : (y : ℕ) → Watched w y → Watched after y
  after-old y h = let small = v.small in ground arith

  after-inv : (y : ℕ) → Watched after y → y ≢ e → Watched w y
  after-inv y h ne = ground arith

  after-fd : (y : ℕ) → fd_of after y ≡ fd_of w y
  after-fd y = ground arith

  not-Watched : ¬ Watched w e
  not-Watched h = omega (arith, h.0, v.small, v.fits)

  after-Watches : (b : Bool) (g y : ℕ) → Watches w b g y → Watches after b g y
  after-Watches b g y h = (after-old y h.0, ground arith, after-fd y ∙ h.2)

  after-Watches-inv : (b : Bool) (g y : ℕ) → Watches after b g y → y ≢ e → Watches w b g y
  after-Watches-inv b g y h ne = (after-inv y h.0 ne, ground arith, sym (after-fd y) ∙ h.2)

  in_set-after :
      (b : Bool) (g : ℕ)
      → in_set after b g ≡ (if b_eq b (w.events e).write && g == f then true else in_set w b g)
  in_set-after true g = ground arith
  in_set-after false g = ground arith

  after-needed : (b : Bool) (g : ℕ) → in_set after b g ≡ true → (y : ℕ) × Watches after b g y
  after-needed b g h = elim (Bool-cases (b_eq b (w.events e).write && g == f)) [
    | inl t ↦ (e, (after-new, ground arith, after-fd e ∙ ground arith))
    | inr t ↦
        let (y, z) = v.needed b g (ground (arith, in_set-after b g)) in (y, after-Watches b g y z)
  ]

  after-highest :
      (m y g : ℕ) → after.select.max_fd ≡ some m → Watched after y → fd_of after y ≡ some g → g ≤ m
  after-highest m y g h h' h'' = elim (Option-cases w.select.max_fd) [
    | inl t ↦ ground arith
    | inr (n, t) ↦ ground (arith, v.highest n y g, after-inv y h', after-fd y)
  ]

  after-IsWatching : IsWatching after
  after-IsWatching =
      let small = v.small in
      let fits = v.fits in
      record {
        fits = ground arith;
        small = ground arith;
        listed = λ i p. ground (arith, v.listed i);
        active = λ i p. ground (arith, v.active i, v.listed i);
        opened = λ y h. ground (arith, v.opened y, after-fd y, after-inv y h);
        covered = λ b g y h.
            ground
              (arith, in_set-after b g, v.covered b g y, after-Watches-inv b g y h, after-fd y);
        needed = after-needed;
        alone = λ b g y y' h h'. ground (
          arith,
          v.alone b g y y',
          free y,
          free y',
          after-Watches-inv b g y h,
          after-Watches-inv b g y' h',
          after-fd e,
        );
        settable = λ y g h h'. elim (ℕ_discrete y e) [
          | yes t ↦ ground (arith, in_range, after-fd y, at_fd)
          | no t ↦ v.settable y g (after-inv y h t) (sym (after-fd y) ∙ h')
        ];
        highest = after-highest;
      }

-- Watching an event that the module does not watch yet, with room and on a descriptor below
-- FD_SETSIZE that no watched event of its kind has, succeeds: exactly this event is watched in addition, it is active, and the
-- module's invariant holds again.
pub add_event-Added :
    {w : World} (e f : ℕ)
    → IsWatching w
    → fd_of w e ≡ some f
    → (w.events e).index ≡ invalid_index
    → w.select.nevents < w.select.room
    → ((y : ℕ) → ¬ Watches w (w.events e).write f y)
    → f < fd_setsize
    → Returns (Added w e) (add_event w e (kind_of (w.events e).write))
unfolding add_event
add_event-Added {w} e f v at_fd new room free in_range =
    let unset : not ((w.events e).index == invalid_index) ≡ false = ground arith in
    let kind : wrong_kind (kind_of (w.events e).write) (w.events e) ≡ false = ground arith in
    let space : (ltb f fd_setsize && ltb w.select.nevents w.select.room) ≡ true = ground arith in
    rw (unset, kind, event_fd-ok w e at_fd, space)
      (returns (record {
        succeeded = refl;
        watching = after-IsWatching v e f at_fd new room free in_range;
        watched = λ y. (
          λ h. elim (ℕ_discrete y e) [
            | yes t ↦ inl t
            | no t ↦ inr (after-inv v e f at_fd new room free in_range y h t)
          ],
          elim [
            | inl t ↦ rw t (after-new v e f at_fd new room free in_range)
            | inr h ↦ after-old v e f at_fd new room free in_range y h
          ],
        );
        activated = ground arith;
      }))
