-- ===== src/Transfer/Done.antt =====
-- What `spy_unix_send` and `spy_unix_recv` leave, once the system answers other than EINTR.
use mysqlproxy.Base.{
  ℕ, zero, suc, ◌+◌, ◌<◌, ◌≡◌, ◌≢◌, ◌∙◌, sym, refl, ap, Bool, true, false, not, ◌&&◌, ◌||◌, ltb,
  ◌==◌, arith, subst,
}
use mysqlproxy.Base.Runs.{Returns-branch, Run, Returns, returns, Returns-weaken}
use mysqlproxy.State.{World}
use mysqlproxy.Transfer.{
  not_ready, send_body, recv_body, Answer, moved, again, interrupted, broken, Outcome, bytes,
  try_again, failed, unix_send, unix_recv,
}

abbrev pub outcome : Answer → Outcome
outcome (moved n) = bytes n
outcome again = try_again
outcome interrupted = try_again
outcome broken = failed

-- all that was asked for has been moved
abbrev pub is_full : Answer → ℕ → Bool
is_full (moved n) size = not (n == 0) && not (ltb n size)
is_full again size = false
is_full interrupted size = false
is_full broken size = false

abbrev pub is_broken : Answer → Bool
is_broken broken = true
is_broken (moved n) = false
is_broken again = false
is_broken interrupted = false

abbrev pub is_end : Answer → Bool
is_end (moved n) = n == 0
is_end again = false
is_end interrupted = false
is_end broken = false

abbrev pub amount : Answer → ℕ
amount (moved n) = n
amount again = 0
amount interrupted = 0
amount broken = 0

-- behind sending: `quiet` says that no call was interrupted
pub record Sent (w : World) (c size : ℕ) (a : Answer) (quiet : Bool) (r : Outcome × World)
    : Type 0 where
  pub result : r.0 ≡ outcome a
  pub counted : (r.1.connections c).sent ≡ (w.connections c).sent + amount a
  pub ready : (r.1.events (w.connections c).write).ready ≡ (
      (w.events (w.connections c).write).ready
      && ((quiet && is_full a size) || (quiet && is_broken a)))
  pub error :
      (r.1.events (w.connections c).write).error
      ≡ ((w.events (w.connections c).write).error || is_broken a)
  pub others : (e : ℕ) → e ≢ (w.connections c).write → r.1.events e ≡ w.events e

send_body-Sent :
    (next : World → Run (Outcome × World)) (a : Answer) (w : World) (c size : ℕ)
    → a ≢ interrupted
    → Returns (Sent w c size a true) (send_body next a w c size)
send_body-Sent next (moved n) w c size q =
    Returns-branch (n == 0)
      (λ t. returns (record {
        result = ground arith;
        counted = ground arith;
        ready = ground arith;
        error = ground arith;
        others = λ e ne. ground arith;
      }))
      (λ t. returns (record {
        result = refl;
        counted = ground arith;
        ready = ground arith;
        error = ground arith;
        others = λ e ne. ground arith;
      }))
send_body-Sent next again w c size q = returns (record {
  result = refl;
  counted = omega arith;
  ready = ground arith;
  error = ground arith;
  others = λ e ne. ground arith;
})
send_body-Sent next interrupted w c size q = absurd (q refl)
send_body-Sent next broken w c size q = returns (record {
  result = refl;
  counted = omega arith;
  ready = ground arith;
  error = ground arith;
  others = λ e ne. ground arith;
})

Sent-later :
    (w : World) (c size : ℕ) (a : Answer) (quiet : Bool) {r : Outcome × World}
    → Sent (not_ready w (w.connections c).write) c size a quiet r
    → Sent w c size a false r
Sent-later w c size a quiet h = record {
  result = h.result;
  counted = h.counted;
  ready = ground (arith, h.ready);
  error = h.error ∙ ground arith;
  others = λ e ne. h.others e ne ∙ ground arith;
}

shifted :
    (answers : ℕ → Answer) (i j : ℕ)
    → answers (i + suc j) ≡ interrupted
    → answers (suc i + j) ≡ interrupted
shifted answers i j t = let there : i + suc j ≡ suc i + j = omega arith in rw there at t

-- Once the system answers other than EINTR, `spy_unix_send` returns: the number of bytes sent, which
-- is added to the connection's counter, SPY_AGAIN on EAGAIN, or SPY_ERROR on another error, which
-- alone marks the write event. The event stays ready only if no call was interrupted and everything
-- was sent or the call failed. No other event changes.
pub unix_send-Sent :
    (answers : ℕ → Answer) (k i : ℕ) (w : World) (c size : ℕ)
    → ((j : ℕ) → j < k → answers (i + j) ≡ interrupted)
    → answers (i + k) ≢ interrupted
    → Returns (Sent w c size (answers (i + k)) (k == 0)) (unix_send answers (suc k) i w c size)
unfolding unix_send
unix_send-Sent answers zero i w c size busy quiet =
    let here : i + 0 ≡ i = omega arith in
    rw here (
      send_body-Sent (λ w'. unix_send answers 0 (suc i) w' c size) (answers i) w c size
        (rw here at quiet))
unix_send-Sent answers (suc k) i w c size busy quiet =
    let here : i + 0 ≡ i = omega arith in
    let there : i + suc k ≡ suc i + k = omega arith in
    let first : answers i ≡ interrupted = rw here at (busy 0 (omega arith)) in
    let more : (suc k == 0) ≡ false = ground arith in
    subst (Returns (Sent w c size (answers (i + suc k)) (suc k == 0)))
      (sym
        (ap (λ a. send_body (λ w'. unix_send answers (suc k) (suc i) w' c size) a w c size) first))
      (rw (there, more)
        (Returns-weaken
          (unix_send-Sent answers k (suc i) (not_ready w (w.connections c).write) c size
            (λ j p. shifted answers i j (busy (suc j) (omega arith))) (rw there at quiet))
          (λ r h. Sent-later w c size (answers (suc i + k)) (k == 0) h)))

-- behind receiving
pub record Received (w : World) (c size : ℕ) (a : Answer) (r : Outcome × World) : Type 0 where
  pub result : r.0 ≡ outcome a
  pub ready :
      (r.1.events (w.connections c).read).ready
      ≡ ((w.events (w.connections c).read).ready && is_full a size)
  pub eof :
      (r.1.events (w.connections c).read).eof ≡ ((w.events (w.connections c).read).eof || is_end a)
  pub error :
      (r.1.events (w.connections c).read).error
      ≡ ((w.events (w.connections c).read).error || is_broken a)
  pub others : (e : ℕ) → e ≢ (w.connections c).read → r.1.events e ≡ w.events e
  pub same_connections : r.1.connections ≡ w.connections

recv_body-Received :
    (next : World → Run (Outcome × World)) (a : Answer) (w : World) (c size : ℕ)
    → a ≢ interrupted
    → Returns (Received w c size a) (recv_body next a w c size)
recv_body-Received next (moved n) w c size q =
    Returns-branch (n == 0)
      (λ t. returns (record {
        result = ground arith;
        ready = ground arith;
        eof = ground arith;
        error = ground arith;
        others = λ e ne. ground arith;
        same_connections = refl;
      }))
      (λ t. returns (record {
        result = refl;
        ready = ground arith;
        eof = ground arith;
        error = ground arith;
        others = λ e ne. ground arith;
        same_connections = ground arith;
      }))
recv_body-Received next again w c size q = returns (record {
  result = refl;
  ready = ground arith;
  eof = ground arith;
  error = ground arith;
  others = λ e ne. ground arith;
  same_connections = refl;
})
recv_body-Received next interrupted w c size q = absurd (q refl)
recv_body-Received next broken w c size q = returns (record {
  result = refl;
  ready = ground arith;
  eof = ground arith;
  error = ground arith;
  others = λ e ne. ground arith;
  same_connections = refl;
})

-- Once the system answers other than EINTR, `spy_unix_recv` returns: the number of bytes received,
-- SPY_AGAIN on EAGAIN, or SPY_ERROR on another error, which alone marks the read event. The event
-- stays ready only if the buffer was filled, and is marked at its end exactly if nothing came. No
-- other event and no connection changes.
pub unix_recv-Received :
    (answers : ℕ → Answer) (k i : ℕ) (w : World) (c size : ℕ)
    → ((j : ℕ) → j < k → answers (i + j) ≡ interrupted)
    → answers (i + k) ≢ interrupted
    → Returns (Received w c size (answers (i + k))) (unix_recv answers (suc k) i w c size)
unfolding unix_recv
unix_recv-Received answers zero i w c size busy quiet =
    let here : i + 0 ≡ i = omega arith in
    rw here (
      recv_body-Received (λ w'. unix_recv answers 0 (suc i) w' c size) (answers i) w c size
        (rw here at quiet))
unix_recv-Received answers (suc k) i w c size busy quiet =
    let here : i + 0 ≡ i = omega arith in
    let there : i + suc k ≡ suc i + k = omega arith in
    let first : answers i ≡ interrupted = rw here at (busy 0 (omega arith)) in
    subst (Returns (Received w c size (answers (i + suc k))))
      (sym
        (ap (λ a. recv_body (λ w'. unix_recv answers (suc k) (suc i) w' c size) a w c size) first))
      (rw there (
        unix_recv-Received answers k (suc i) w c size
          (λ j p. shifted answers i j (busy (suc j) (omega arith))) (rw there at quiet)))
