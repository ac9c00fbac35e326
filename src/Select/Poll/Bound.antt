-- ===== src/Select/Poll/Bound.antt =====
-- The highest descriptor that `spy_select_process_events` hands to select().
use native.Mathlib.Decide.{ℕ_discrete}
use mysqlproxy.Base.{
  ℕ, zero, suc, ◌+◌, ◌≤◌, ◌<◌, ◌≡◌, inl, inr, Option, none, some, if◌then◌else◌, arith,
  Option-cases,
}
use mysqlproxy.Base.Runs.{ok, Returns, returns, Returns-weaken}
use mysqlproxy.State.{World, owner}
use mysqlproxy.Select.Watch.{fd_of, Watched, IsWatching}
use mysqlproxy.Select.Poll.{less_fd, find_max, max_of, nfds}

-- `f` is at most `m`, where -1 is less than every descriptor
abbrev pub AtMost : ℕ → Option ℕ → Type 0
AtMost f m = f < nfds m

raised : (f g : ℕ) (m : Option ℕ) → AtMost g m → AtMost g (if less_fd m (some f) then some f else m)
raised f g none h = absurd (omega arith)
raised f g (some a) h = ground arith

raised_self : (f : ℕ) (m : Option ℕ) → AtMost f (if less_fd m (some f) then some f else m)
raised_self f none = omega arith
raised_self f (some a) = ground arith

owner-ok :
    (w : World) (e : ℕ) {f : ℕ}
    → fd_of w e ≡ some f
    → (c : ℕ) × (owner w e ≡ ok c) × ((w.connections c).fd ≡ some f)
owner-ok w e h = elim (Option-cases (w.events e).data_of) [
  | inl t ↦ absurd (ground arith)
  | inr (c, t) ↦ (c, ground arith, ground arith)
]

find_max-AtMost :
    (k i : ℕ) (m : Option ℕ) {w : World}
    → IsWatching w
    → i + k ≤ w.select.nevents
    → Returns
        (λ m'.
          ((f : ℕ) → AtMost f m → AtMost f m')
          × ((j f : ℕ)
              → i ≤ j
              → j < i + k
              → fd_of w (w.select.event_index j) ≡ some f
              → AtMost f m'))
        (find_max w k i m)
unfolding find_max
find_max-AtMost zero i m v total = returns (λ f h. h, λ j f p q h. absurd (omega arith))
find_max-AtMost (suc k) i m {w} v total = elim (Option-cases (fd_of w (w.select.event_index i))) [
  | inl t ↦ absurd (v.opened (w.select.event_index i) here t)
  | inr (f, t) ↦
      let (c, e, e') = owner-ok w (w.select.event_index i) t in
      rw (e, e')
        (Returns-weaken
          (find_max-AtMost k (suc i) (if less_fd m (some f) then some f else m) v (omega arith))
          (λ m' z. (
            λ g h. z.0 g (raised f g m h),
            λ j g p q h. elim (ℕ_discrete j i) [
              | yes same ↦ let eq : g ≡ f = ground arith in rw eq (z.0 f (raised_self f m))
              | no ne ↦ z.1 j g (omega arith) (omega arith) h
            ],
          )))
]
  where
    here : Watched w (w.select.event_index i)
    here = ground (arith, v.listed i)

-- The number of descriptors that select() is asked about covers every watched event, whether `max_fd`
-- was known or had to be found again.
pub max_of-AtMost :
    {w : World}
    → IsWatching w
    → Returns (λ m. (e f : ℕ) → Watched w e → fd_of w e ≡ some f → f < nfds m) (max_of w)
unfolding max_of
max_of-AtMost {w} v = elim (Option-cases w.select.max_fd) [
  | inr (m, t) ↦ rw (t, max_of) (returns (λ e f h h'. omega (arith, v.highest m e f t h h')))
  | inl t ↦
      rw (t, max_of)
        (Returns-weaken (find_max-AtMost w.select.nevents 0 none v (omega arith)) (λ m z e f h h'.
          z.1 (w.events e).index f (omega arith) (omega (arith, h.0)) (rw (h.1) h')))
]
