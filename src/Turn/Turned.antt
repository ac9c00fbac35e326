-- ===== src/Turn/Turned.antt =====
-- One turn of the event loop: polling, then the handlers of what is posted.
use mysqlproxy.Base.{
  ℕ, suc, ◌+◌, ◌<◌, ◌≡◌, ◌∙◌, sym, ap, subst, refl, ◌⊎◌, inl, inr, Bool, true, false, Option, List,
  arith, ◌==◌, if◌then◌else◌, Bool-cases,
}
use mysqlproxy.Base.Runs.{ok, ◌>>=◌, Returns-inv, then-cong}
use mysqlproxy.State.{Times, Status, Queue, accepts, others, head_of, World}
use mysqlproxy.Minheap.{Heap}
use mysqlproxy.Times.{time_update}
use mysqlproxy.Posted.Chain.{Chain, nil, cons}
use mysqlproxy.Posted.Both.{IsPosted}
use mysqlproxy.Posted.Process.{length, handle_all, process_posted-handle_all}
use mysqlproxy.Select.Watch.{IsWatching}
use mysqlproxy.Select.Poll.{ready, repair}
use mysqlproxy.Select.Poll.Round.{Polled, process_events-Polled}
use mysqlproxy.Timer.{difference, find_timer}
use mysqlproxy.Timer.Expire.{finished}
use mysqlproxy.Turn.{Outside, run_queue, run_timers, turn}
use mysqlproxy.Turn.Quiet.{IsQuiet, AreQuiet, quiet-Chain, quiet-IsPosted, handle_all-Handled}

repair-IsQuiet : (valid : ℕ → Bool) (v : World) → IsQuiet v (repair valid v)
unfolding repair
repair-IsQuiet valid v = record {
  links = λ a. (refl, refl);
  heads = elim [ accepts ↦ refl | others ↦ refl ];
  timers = refl;
}

repair-times : (valid : ℕ → Bool) (v : World) → (repair valid v).times ≡ v.times
unfolding repair
repair-times valid v = refl

-- a queue is handled from front to back, if the handlers are quiet
run_queue-handle_all :
    (o : Outside) (k : ℕ) (q : Queue) {w : World} {es : List ℕ}
    → AreQuiet o.handle
    → Chain w (head_of q) es
    → length es < k
    → run_queue o k q w ≡ handle_all o.handle es w
unfolding run_queue handle_all
run_queue-handle_all o k q quiet (nil r) f = rw (r, run_queue) refl
run_queue-handle_all o k q quiet (cons r p out c) f =
    rw (r, run_queue)
      (process_posted-handle_all o.handle q k (λ e v v' fs h. quiet-Chain q (quiet e v v' h))
        (cons r p out c) f)

difference_self : (x : ℕ) → difference x x ≡ 0
difference_self x = omega arith

-- without timers, or without time, none expires
run_timers-none :
    (o : Outside) (k x y : ℕ) (w : World)
    → (w.timers.last ≡ 0) ⊎ (x ≡ y)
    → run_timers o (suc k) (difference x y) w ≡ ok w
unfolding run_timers
run_timers-none o k x y w (inl t) = elim (Bool-cases (difference x y == 0)) [
  | inl z ↦ rw z refl
  | inr z ↦ rw z (finished o.handle k w t)
]
run_timers-none o k x y w (inr t) = rw (t, difference_self y) refl

-- the world behind the polling
record Settled (w final v : World) : Type 0 where
  quiet : IsQuiet final v
  times : v.times ≡ final.times

repaired :
    (w final : World) (valid : ℕ → Bool) (b : Bool)
    → Settled w final (if b then final else repair valid final)
repaired w final valid true = record {
  quiet = record { links = λ a. (refl, refl); heads = λ q. refl; timers = refl };
  times = refl;
}
repaired w final valid false = record {
  quiet = repair-IsQuiet valid final;
  times = repair-times valid final;
}

idle_still :
    {h h' : Heap} {x y z : ℕ} → (h.last ≡ 0) ⊎ (y ≡ z) → h' ≡ h → x ≡ y → (h'.last ≡ 0) ⊎ (x ≡ z)
idle_still (inl t) e f = inl (ap (λ (h : Heap). h.last) e ∙ t)
idle_still (inr t) e f = inr (f ∙ t)

-- what a turn amounts to, if select() has found `n` descriptors ready, of the sets `r` and `t`: the
-- handlers of the accepting events run and then those of the others, in the order of the queues
pub record Turned (o : Outside) (w : World) (es : Queue → List ℕ) (n : ℕ) (r t : ℕ → Bool)
    : Type 0 where
  pub out : Status × World
  pub polled : Polled o.select_call o.valid o.localtime o.now w es n r t out
  pub queued : IsPosted out.1 polled.scanned.es
  pub fuel : ℕ
  pub run : turn o fuel w ≡ (
      handle_all o.handle (polled.scanned.es accepts) out.1
      >>= handle_all o.handle (polled.scanned.es others))

-- One turn of the event loop in which select() reports ready descriptors, no timer can expire, since
-- none is set or the clock has not moved, and the handlers leave the queues and the timers alone: the
-- watched events that are ready are posted, and then the handlers of exactly the events in the two
-- queues run, once each, first those of the queue of accepting events and then those of the other
-- queue, each queue from front to back; nothing else happens, and a failing handler ends the turn.
pub turn-Turned :
    (o : Outside) {w : World} {es : Queue → List ℕ} (timer n : ℕ) (r t : ℕ → Bool)
    → AreQuiet o.handle
    → ((k : ℕ) (a b : ℕ → Bool) (c : Option (ℕ × ℕ)) → o.select_call k a b c ≡ ready (suc n) r t)
    → find_timer w ≡ ok timer
    → (w.timers.last ≡ 0)
      ⊎ ((time_update o.localtime o.now w.times).current_msec ≡ w.times.current_msec)
    → IsWatching w
    → IsPosted w es
    → Turned o w es (suc n) r t
unfolding turn
turn-Turned o {w} {es} timer n r t quiet answer found calm v p =
    let (out, e, polled) =
      Returns-inv
        (process_events-Polled o.select_call o.valid o.localtime o.now timer n r t answer v p) in
    let s = polled.scanned in
    let settled =
      subst (Settled w polled.final) (sym (ap (λ (x : Status × World). x.1) polled.result))
        (repaired w polled.final o.valid _) in
    let queued = quiet-IsPosted settled.quiet s.posted in
    let k = length (s.es accepts) + length (s.es others) in
    record {
      out = out;
      polled = polled;
      queued = queued;
      fuel = suc k;
      run =
          rw
            (
              found,
              e,
              run_queue-handle_all o (suc k) accepts quiet (queued.chain accepts) (omega arith),
            )
            (then-cong (handle_all o.handle (s.es accepts) out.1) λ a ran.
              let h = handle_all-Handled quiet accepts (s.es accepts) queued refl a ran in
              let still =
                idle_still calm (h.timers ∙ settled.quiet.timers ∙ s.same.timers)
                  (ap (λ (x : Times). x.current_msec) (settled.times ∙ s.same.times)) in
              rw (run_timers-none o k _ _ a still) (
                run_queue-handle_all o (suc k) others quiet
                  (subst (Chain a (head_of others)) h.kept (h.posted.chain others)) (omega arith)));
    }
