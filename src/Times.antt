-- ===== src/Times.antt =====
-- core/spy_times.c: the cached time.
use mysqlproxy.Base.{
  arith, ◌≡◌, ℕ, ◌+◌, ◌-◌, ◌*◌, ◌/◌, ◌%◌, true, false, some, update, ◌==◌, if◌then◌else◌,
}
use mysqlproxy.State.{Times, CachedTime, Tm, word}

-- SPY_TIME_SLOTS
abbrev pub time_slots : ℕ
time_slots = 64

-- what `gettimeofday` fills in
pub record TimeVal : Type 0 where
  pub sec : ℕ
  pub usec : ℕ

-- the rest of `spy_time_update_r`, behind the test of the seconds: the next slot, the printed time
abbrev pub next_slot : Times → Tm → Times
next_slot t tm =
    let slot = if t.slot == time_slots - 1 then 0 else t.slot + 1 in
    record t {
      slot = slot;
      cached_err_log_time = update t.cached_err_log_time slot (some tm);
      err_log_time_at = some slot;
      locked = false;
    }

-- `spy_time_update_r`, with `localtime` as a parameter. `cached` is `*tp` behind the two writes.
unfoldable pub time_update : (ℕ → Tm) → TimeVal → Times → Times
time_update localtime tv t =
    let msec = tv.usec / 1000 in
    let cached : CachedTime = record { sec = tv.sec; msec = msec } in
    let written = record t {
      current_msec = (tv.sec * 1000 + msec) % word;
      cached_time = update t.cached_time t.slot cached;
    } in
    if t.locked
    then t
    else if (written.cached_time written.slot).sec == tv.sec
    then record written { locked = false }
    else next_slot (record written { locked = true }) (localtime tv.sec)

-- `spy_time_init`
unfoldable pub time_init : (ℕ → Tm) → TimeVal → Times → Times
unfolding time_update
time_init localtime tv t =
    time_update localtime tv (record t { err_log_time_len = 19; cached_time_at = some 0 })

module _ (localtime : ℕ → Tm) (tv : TimeVal) (t : Times) where
  -- `spy_time_update_r` sets the milliseconds and the cached time unless it finds the lock taken, and
  -- leaves the lock as it was. But it never moves on to another slot and never prints the time for
  -- the log: it compares the seconds with those that it has just stored.
  pub time_update_stale :
      let t' = time_update localtime tv t in
      (t.locked ≡ false → t'.current_msec ≡ (tv.sec * 1000 + tv.usec / 1000) % word)
      × (t.locked ≡ true → t'.current_msec ≡ t.current_msec)
      × (t'.locked ≡ t.locked)
      × (t'.slot ≡ t.slot)
      × (t'.err_log_time_at ≡ t.err_log_time_at)
      × ((i : ℕ) → t'.cached_err_log_time i ≡ t.cached_err_log_time i)
  unfolding time_update
  time_update_stale = ground arith
