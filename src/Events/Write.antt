-- ===== src/Events/Write.antt =====
-- `spy_handle_write_event`, with the mark that `spy_send_lowat` leaves on a connection.
use mysqlproxy.Base.{
  ℕ, ◌≡◌, ◌∙◌, sym, refl, ◌⊎◌, inl, inr, Bool, true, false, Option, none, some, arith, ◌==◌,
  Bool-cases,
}
use mysqlproxy.Base.Runs.{Returns, returns, Returns-weaken, Returns-branch, Returns-then}
use mysqlproxy.State.{Status, ok_status, error_status, World, owner, set_connection}
use mysqlproxy.Select.Watch.{fd_of, in_set, Watches, IsWatching}
use mysqlproxy.Events.{send_lowat, handle_write_event}
use mysqlproxy.Events.Handle.{CanWatch, Handled, rewatch_write-Handled}

-- the connection with the mark that its low watermark is set
abbrev pub marked : World → ℕ → World
marked w c = set_connection w c (record (w.connections c) { sndlowat = true })

module _ (w : World) (c : ℕ) where
  marked-fd : (y : ℕ) → fd_of (marked w c) y ≡ fd_of w y
  marked-fd y = go (w.events y).data_of
    where
      go :
          (o : Option ℕ)
          → elim o as (λ _. Option ℕ) [ none ↦ none | some d ↦ ((marked w c).connections d).fd ]
            ≡ elim o as (λ _. Option ℕ) [ none ↦ none | some d ↦ (w.connections d).fd ]
      go none = refl
      go (some d) = ground arith

  marked-Watches : (b : Bool) (g y : ℕ) → Watches (marked w c) b g y → Watches w b g y
  marked-Watches b g y (h, h', h'') = (h, h', sym (marked-fd y) ∙ h'')

  in_set-marked : (b : Bool) (g : ℕ) → in_set (marked w c) b g ≡ in_set w b g
  in_set-marked true g = refl
  in_set-marked false g = refl

  marked-IsWatching : IsWatching w → IsWatching (marked w c)
  marked-IsWatching v = record {
    fits = v.fits;
    small = v.small;
    listed = v.listed;
    active = v.active;
    opened = λ y h t. v.opened y h (sym (marked-fd y) ∙ t);
    covered = λ b g y h. in_set-marked b g ∙ v.covered b g y (marked-Watches b g y h);
    needed = λ b g h.
        let (y, at) = v.needed b g (sym (in_set-marked b g) ∙ h) in
        (y, (at.0, at.1, marked-fd y ∙ at.2));
    alone = λ b g y y' h h'. v.alone b g y y' (marked-Watches b g y h) (marked-Watches b g y' h');
    settable = λ y g h h'. v.settable y g h (sym (marked-fd y) ∙ h');
    highest = λ m y g t h h'. v.highest m y g t h (sym (marked-fd y) ∙ h');
  }

  marked-CanWatch : {e f : ℕ} → CanWatch w e f → CanWatch (marked w c) e f
  marked-CanWatch {e} v = record {
    watching = marked-IsWatching v.watching;
    at_fd = marked-fd e ∙ v.at_fd;
    active = v.active;
    unset = v.unset;
    room = v.room;
    settable = v.settable;
    free = λ off y h. v.free off y (marked-Watches _ _ y h);
  }

unmarked :
    (w : World) (c e : ℕ) {r : Status × World}
    → Handled (marked w c) e false r
    → Handled w e false r
unmarked w c e h = record {
  succeeded = h.succeeded;
  watching = h.watching;
  watched = h.watched;
  others = h.others;
}

-- what `spy_send_lowat` answers to a watermark other than 0
sent :
    (set : Option ℕ → ℕ → Bool) (w : World) (c lowat : ℕ)
    → (lowat == 0) ≡ false
    → (send_lowat set w c lowat ≡ (ok_status, w))
      ⊎ (send_lowat set w c lowat ≡ (ok_status, marked w c))
      ⊎ ((send_lowat set w c lowat ≡ (error_status, w)) × (set (w.connections c).fd lowat ≡ false))
unfolding send_lowat
sent set w c lowat p = elim (Bool-cases (w.connections c).sndlowat) [
  | inl done ↦ inl (rw (p, done) refl)
  | inr new ↦ elim (Bool-cases (set (w.connections c).fd lowat)) [
    | inr refused ↦ inr (inr (rw (p, new, refused) refl, refused))
    | inl set_fd ↦ inr (inl (rw (p, new, set_fd) refl))
  ]
]

-- Behind `spy_send_lowat`, which succeeds or changes nothing, `spy_handle_write_event` succeeds on a
-- write event of an open connection, with a descriptor below FD_SETSIZE that no watched write event has
-- and with room for one more event: the event is watched afterwards exactly if it is not ready, all
-- other events stay watched or unwatched, and the select() module's invariant holds. It fails only if
-- setsockopt does, and then changes nothing.
pub handle_write_event-Handled :
    (set : Option ℕ → ℕ → Bool) {w : World} {e f : ℕ} (c lowat : ℕ)
    → CanWatch w e f
    → (w.events e).write ≡ true
    → (w.events e).data_of ≡ some c
    → Returns
        (λ r.
          ((r ≡ (error_status, w)) × (set (w.connections c).fd lowat ≡ false))
          ⊎ Handled w e false r)
        (handle_write_event set w e lowat)
unfolding handle_write_event
handle_write_event-Handled set {w} {e} c lowat v kind at =
    let owned : Returns (λ d. d ≡ c) (owner w e) = rw (owner, at) (returns refl) in
    Returns-branch (lowat == 0) (λ p. Returns-weaken (rewatch_write-Handled v kind) (λ r h. inr h))
      (λ p. Returns-then owned (λ d h. elim (sent set w c lowat p) [
        | inl t ↦ rw (h, t, h, t) (Returns-weaken (rewatch_write-Handled v kind) (λ r h. inr h))
        | inr (inl t) ↦
            rw (h, t, h, t)
              (Returns-weaken (rewatch_write-Handled (marked-CanWatch w c v) kind)
                (λ r h. inr (unmarked w c e h)))
        | inr (inr (t, refused)) ↦ rw (h, t) (returns (inl (refl, refused)))
      ]))
