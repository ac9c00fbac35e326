-- ===== src/Events/Handle.antt =====
-- `spy_handle_read_event` and `spy_handle_write_event` keep watching an event as long as it is not
-- ready.
use mysqlproxy.Base.{
  inr, inl, ◌≢◌, ℕ, ◌<◌, ◌≡◌, ◌↔◌, refl, Bool, true, false, not, ◌&&◌, ◌||◌, some, arith,
  if◌then◌else◌,
}
use mysqlproxy.Base.Runs.{Returns-branch, ok, Returns, returns, Returns-weaken}
use mysqlproxy.State.{Status, ok_status, World, invalid_index}
use mysqlproxy.Select.{fd_setsize}
use mysqlproxy.Select.Watch.{fd_of, kind_of, Watched, Watches, IsWatching, Added, add_event-Added}
use mysqlproxy.Select.Unwatch.{Dropped, del_event-Dropped}
use mysqlproxy.Events.{del_event, add_event, closes, handle_read_event, rewatch_write}

-- event `e`, of an open connection, may be watched
pub record CanWatch (w : World) (e f : ℕ) : Type 0 where
  pub watching : IsWatching w
  pub at_fd : fd_of w e ≡ some f
  pub active : ((w.events e).active ≡ true) ↔ Watched w e
  pub unset : (w.events e).active ≡ false → (w.events e).index ≡ invalid_index
  pub room : w.select.nevents < w.select.room
  pub settable : f < fd_setsize
  pub free : (w.events e).active ≡ false → (y : ℕ) → ¬ Watches w (w.events e).write f y

-- whether the event is watched behind the call
abbrev pub stays : Bool → Bool → Bool → Bool
stays active ready closing = if active then not (ready || closing) else not ready

pub record Handled (w : World) (e : ℕ) (closing : Bool) (r : Status × World) : Type 0 where
  pub succeeded : r.0 ≡ ok_status
  pub watching : IsWatching r.1
  pub watched : Watched r.1 e ↔ (stays (w.events e).active (w.events e).ready closing ≡ true)
  pub others : (y : ℕ) → y ≢ e → Watched r.1 y ↔ Watched w y

module _ {w : World} {e f : ℕ} (v : CanWatch w e f) (closing : Bool) where
  now_on :
      (r : Status × World)
      → (w.events e).active ≡ false
      → (w.events e).ready ≡ false
      → Added w e r
      → Handled w e closing r
  now_on r off idle a = record {
    succeeded = a.succeeded;
    watching = a.watching;
    watched = (λ h. rw (off, idle) refl, λ h. (a.watched e).1 (inl refl));
    others = λ y t. (λ h. ground (arith, (a.watched y).0), λ h. (a.watched y).1 (inr h));
  }

  now_off :
      (r : Status × World)
      → (w.events e).active ≡ true
      → ((w.events e).ready || closing) ≡ true
      → Dropped w e r
      → Handled w e closing r
  now_off r on leaves d = record {
    succeeded = d.succeeded;
    watching = d.watching;
    watched = (λ h. absurd (((d.watched e).0 h).1 refl), λ h. absurd (ground arith));
    others = λ y t. (λ h. ((d.watched y).0 h).0, λ h. (d.watched y).1 (h, t));
  }

  left_alone :
      (((not (w.events e).active) && not (w.events e).ready) ≡ false)
      → ((w.events e).active && ((w.events e).ready || closing)) ≡ false
      → Handled w e closing (ok_status, w)
  left_alone p q = record {
    succeeded = refl;
    watching = v.watching;
    watched = (λ h. ground (arith, v.active.1), λ h. v.active.0 (ground arith));
    others = λ y t. (λ h. h, λ h. h);
  }

  handled :
      (b : Bool)
      → (w.events e).write ≡ b
      → Returns (Handled w e closing) (
          if not (w.events e).active && not (w.events e).ready
          then add_event w e (kind_of b)
          else if (w.events e).active && ((w.events e).ready || closing)
          then del_event w e (kind_of b)
          else ok (ok_status, w))
  handled b kind =
      Returns-branch (not (w.events e).active && not (w.events e).ready)
        (λ p.
          Returns-weaken
            (rw kind at (
              add_event-Added e f v.watching v.at_fd (v.unset (ground arith)) v.room
                (v.free (ground arith)) v.settable))
            (λ r a. now_on r (ground arith) (ground arith) a))
        (λ p.
          Returns-branch ((w.events e).active && ((w.events e).ready || closing))
            (λ q.
              Returns-weaken
                (rw kind at (del_event-Dropped e f v.watching v.at_fd (v.active.0 (ground arith))))
                (λ r d. now_off r (ground arith) (ground arith) d))
            (λ q. returns (left_alone p q)))

-- `spy_handle_read_event` succeeds on a read event of an open connection, with a descriptor below FD_SETSIZE
-- that no watched read event has and with room for one more event: the event is watched
-- afterwards exactly if it is not ready and, should it have been active, the close flag is not given;
-- all other events stay watched or unwatched and the select() module's invariant holds.
pub handle_read_event-Handled :
    {w : World} {e f : ℕ} (flags : ℕ)
    → CanWatch w e f
    → (w.events e).write ≡ false
    → Returns (Handled w e (closes flags)) (handle_read_event w e flags)
unfolding handle_read_event
handle_read_event-Handled flags v kind = handled v (closes flags) false kind

pub rewatch_write-Handled :
    {w : World} {e f : ℕ}
    → CanWatch w e f
    → (w.events e).write ≡ true
    → Returns (Handled w e false) (rewatch_write w e)
unfolding rewatch_write
rewatch_write-Handled {w} {e} v kind =
    let same : ((w.events e).ready || false) ≡ (w.events e).ready = ground arith in
    rw same at (handled v false true kind)
