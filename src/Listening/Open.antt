-- ===== src/Listening/Open.antt =====
-- `spy_open_listening_sockets`: what it has done when it succeeds.
use mysqlproxy.Base.{ℕ, ◌+◌, ◌≤◌, ◌<◌, ◌≡◌, ◌≢◌, ◌⊎◌, Bool, true, none, some, if◌then◌else◌}
use mysqlproxy.State.{Status, ok_status, error_status}
use mysqlproxy.Listening.{bound, in_use, Calls, Sockets, Pass, passed, stopped}

-- what one pass makes of the entry `j`
abbrev pub Settled : Calls → ℕ → Sockets → Sockets → ℕ → Type 0
Settled c tries l l' j =
    (((l.entries j).fd ≢ none) × (l'.entries j ≡ l.entries j))
    ⊎ (((l.entries j).fd ≡ none)
        × (s : ℕ) × (c.socket tries j ≡ some s)
        × (l'.opened s ≡ true)
        × (((c.bind tries j ≡ bound)
              × ((l'.entries j).fd ≡ some s)
              × ((l'.entries j).listen ≡ true))
            ⊎ ((c.bind tries j ≡ in_use) × (l'.entries j ≡ l.entries j))))

pub record Went (c : Calls) (tries : ℕ) (l : Sockets) (i k : ℕ) (l' : Sockets) : Type 0 where
  pub settled : (j : ℕ) → i ≤ j → j < i + k → Settled c tries l l' j
  pub before : (j : ℕ) → j < i → l'.entries j ≡ l.entries j
  pub after : (j : ℕ) → i + k ≤ j → l'.entries j ≡ l.entries j
  pub still_open : (s : ℕ) → l.opened s ≡ true → l'.opened s ≡ true

-- a pass that goes through leaves `failed` alone
pub data Ended (c : Calls) (tries : ℕ) (l : Sockets) (i k : ℕ) (failed : Bool)
    : Pass × Sockets → Type 0 where
  halted : {l' : Sockets} → Ended c tries l i k failed (stopped, l')
  went : {l' : Sockets} → Went c tries l i k l' → Ended c tries l i k failed (passed failed, l')

-- the answer behind one pass, with `again` for the other tries
abbrev answer : (Sockets → Status × Sockets) → Pass × Sockets → Status × Sockets
answer again r = elim (r.0) as (λ _. Status × Sockets) [
  | stopped ↦ (error_status, r.1)
  | passed failed ↦ if failed then again r.1 else (ok_status, r.1)
]
