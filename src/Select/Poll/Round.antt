-- ===== src/Select/Poll/Round.antt =====
-- One call of `spy_select_process_events`.
use mysqlproxy.Base.{
  ℕ, suc, ◌<◌, ◌≡◌, refl, Bool, true, false, Option, some, List, ◌==◌, if◌then◌else◌, arith,
}
use mysqlproxy.Base.Runs.{Returns, returns, Returns-inv, Returns-then}
use mysqlproxy.State.{Status, ok_status, Queue, accepts, others, Tm, World}
use mysqlproxy.Times.{TimeVal}
use mysqlproxy.Posted.Chain.{Chain-frame}
use mysqlproxy.Posted.Both.{IsPosted}
use mysqlproxy.Select.Watch.{fd_of, Watched, IsWatching}
use mysqlproxy.Select.Poll.{Answer, ready, nfds, called, repair, finish, process_events}
use mysqlproxy.Select.Poll.Scan.{hits, Scanned, Scanned-refl, scan-Scanned}
use mysqlproxy.Select.Poll.Bound.{max_of-AtMost}

module _ (select_call : ℕ → (ℕ → Bool) → (ℕ → Bool) → Option (ℕ × ℕ) → Answer) (valid : ℕ → Bool)
    (localtime : ℕ → Tm) (now : TimeVal) where
  -- the world that the loop begins with, `max_fd` found and the answer stored
  abbrev pub begun : World → Option ℕ → (ℕ → Bool) → (ℕ → Bool) → World
  begun w m r t =
      called select_call valid localtime now
        (record w { select = record (w.select) { max_fd = m } }) r t

  begun-IsWatching :
      {w : World} (m : Option ℕ) (r t : ℕ → Bool)
      → IsWatching w
      → ((e f : ℕ) → Watched w e → fd_of w e ≡ some f → f < nfds m)
      → IsWatching (begun w m r t)
  begun-IsWatching {w} m r t v bound = record {
    fits = v.fits;
    small = v.small;
    listed = v.listed;
    active = v.active;
    opened = v.opened;
    covered = elim [ true ↦ v.covered true | false ↦ v.covered false ];
    needed = elim [ true ↦ v.needed true | false ↦ v.needed false ];
    alone = v.alone;
    settable = v.settable;
    highest = λ a e f h h' h''. ground (arith, bound e f h' h'');
  }

  begun-IsPosted :
      {w : World} {es : Queue → List ℕ} (m : Option ℕ) (r t : ℕ → Bool)
      → IsPosted w es
      → IsPosted (begun w m r t) es
  begun-IsPosted m r t v = record {
    chain = elim [
      | accepts ↦ Chain-frame (v.chain accepts) refl (λ a i. (refl, refl))
      | others ↦ Chain-frame (v.chain others) refl (λ a i. (refl, refl))
    ];
    apart = v.apart;
    known = v.known;
  }

  -- the outcome of a call that found `n` descriptors ready, of the sets `r` and `t`
  pub record Polled (w : World) (es : Queue → List ℕ) (n : ℕ) (r t : ℕ → Bool)
      (out : Status × World) : Type 0 where
    pub max : Option ℕ
    pub max_bound : (e f : ℕ) → Watched w e → fd_of w e ≡ some f → f < nfds max
    pub final : World
    pub scanned : Scanned (begun w max r t) es w.select.nevents final
    pub result : out ≡ (
      ok_status,
      if n == hits (begun w max r t) w.select.nevents 0 then final else repair valid final,
    )

  -- When select() reports ready descriptors, the call succeeds. Every watched event whose descriptor
  -- is in the set of its kind is marked ready and is in a posted queue afterwards; events come into a
  -- queue only so, and into the queue of their kind, and what the queues held they keep. The sets are
  -- repaired exactly if the number of these events is not the one that select() reported.
  pub process_events-Polled :
      {w : World} {es : Queue → List ℕ} (timer n : ℕ) (r t : ℕ → Bool)
      → ((k : ℕ) (a b : ℕ → Bool) (c : Option (ℕ × ℕ)) → select_call k a b c ≡ ready (suc n) r t)
      → IsWatching w
      → IsPosted w es
      → Returns (Polled w es (suc n) r t) (process_events select_call valid localtime now w timer)
  unfolding process_events finish
  process_events-Polled {w} {es} timer n r t answer v p =
      let some_ready : (suc n == 0) ≡ false = ground arith in
      let (m, e, bound) = Returns-inv (max_of-AtMost v) in
      rw (e, answer, process_events, finish, some_ready)
        (Returns-then
          (scan-Scanned w.select.nevents 0 0 (begun-IsWatching m r t v bound) (omega arith)
            (Scanned-refl (begun-IsPosted m r t p)))
          (λ z h.
            let counted : z.1 ≡ hits (begun w m r t) w.select.nevents 0 = ground (arith, h.1) in
            returns (record {
              max = m;
              max_bound = bound;
              final = z.0;
              scanned = h.0;
              result = rw counted refl;
            })))
