-- ===== src/Reload/Cleaning.antt =====
-- Clearing the old configurations that are listed, and what becomes of those that are retired.
use mysqlproxy.Base.{
  ◌<◌, ◌⊎◌, ℕ, ◌+◌, ◌≡◌, ◌∙◌, ap, refl, Bool, true, false, Option, none, some, List, [], ◌∷◌, ◌++◌,
  arith, if◌then◌else◌,
}
use mysqlproxy.Pool.Balance.{count, count-append}
use mysqlproxy.Reload.{Global, has_live, Sweep, sweep, Cleaner, clean, retire}

-- the pools of the old globals that are listed
abbrev pub pools : List (Option Global) → List ℕ
pools [] = []
pools (none ∷ gs) = pools gs
pools (some g ∷ gs) = g.pool ∷ pools gs

-- the pools of those that have a connection
abbrev pub live_pools : List (Option Global) → List ℕ
live_pools [] = []
live_pools (none ∷ gs) = live_pools gs
live_pools (some g ∷ gs) = if has_live g.connections then g.pool ∷ live_pools gs else live_pools gs

record Swept (live : Bool) (gs : List (Option Global)) (r : Sweep) : Type 0 where
  balanced : (x : ℕ) → count x r.destroyed + count x (pools r.globals) ≡ count x (pools gs)
  lives : (x : ℕ) → count x (pools r.globals) ≡ count x (live_pools gs)
  over : r.live ≡ false → (x : ℕ) → count x (pools r.globals) ≡ 0
  before : r.live ≡ false → live ≡ false
  kept : r.live ≡ true → (live ≡ true) ⊎ ((x : ℕ) × (0 < count x (live_pools gs)))

-- connections are opened and closed
abbrev pub change : (Global → List (Option ℕ)) → List Global → List Global
change f [] = []
change f (g ∷ gs) = record g { connections = f g } ∷ change f gs

-- What happens to the old globals: one more is retired, the connections change, or the timer of the
-- cleaner fires. The lists are of the pools that are retired and destroyed.
pub data Step : Cleaner → Cleaner → List ℕ → List ℕ → Type 0 where
  retired : (c : Cleaner) (g : Global) → Step c (retire c g) (g.pool ∷ []) []
  changed :
      (c : Cleaner) (f : Global → List (Option ℕ))
      → Step c (record c { cycles = change f c.cycles }) [] []
  fired : (c : Cleaner) → c.timer_set ≡ true → Step c (clean c).0 [] (clean c).1

pub data Life : Cleaner → List ℕ → List ℕ → Type 0 where
  begun : Life (record { cycles = []; globals = []; timer_set = false }) [] []
  after :
      {c c' : Cleaner} {old gone old' gone' : List ℕ}
      → Life c old gone
      → Step c c' old' gone'
      → Life c' (old' ++ old) (gone' ++ gone)

-- the pools of the globals in `spy_old_cycles`
abbrev pub cycle_pools : List Global → List ℕ
cycle_pools [] = []
cycle_pools (g ∷ gs) = g.pool ∷ cycle_pools gs

cycle_pools-change :
    (f : Global → List (Option ℕ)) (gs : List Global) → cycle_pools (change f gs) ≡ cycle_pools gs
cycle_pools-change f [] = refl
cycle_pools-change f (g ∷ gs) = ap (λ l. g.pool ∷ l) (cycle_pools-change f gs)

cycle_pools-append :
    (gs hs : List Global) → cycle_pools (gs ++ hs) ≡ cycle_pools gs ++ cycle_pools hs
cycle_pools-append [] hs = refl
cycle_pools-append (g ∷ gs) hs = ap (λ l. g.pool ∷ l) (cycle_pools-append gs hs)

clean-empty :
    (c : Cleaner)
    → c.globals ≡ []
    → ((clean c).0.globals ≡ []) × ((clean c).1 ≡ []) × ((clean c).0.cycles ≡ c.cycles)
unfolding clean sweep
clean-empty c e = rw e (refl, refl, refl)

-- Of the configurations that have been retired, whatever happened since, none has ever been destroyed: all
-- of them stand in spy_old_cycles, as often as they were retired, and the array that the cleaner reads is
-- empty.
pub Life-Lost :
    {c : Cleaner} {old gone : List ℕ}
    → Life c old gone
    → (gone ≡ []) × (c.globals ≡ []) × ((x : ℕ) → count x (cycle_pools c.cycles) ≡ count x old)
Life-Lost begun = (refl, refl, λ x. refl)
Life-Lost (after {old} l (retired c g)) =
    let (d, e, h) = Life-Lost l in
    (
      d,
      e,
      λ x. omega (
        arith,
        ap (count x) (cycle_pools-append c.cycles (g ∷ [])),
        count-append x (cycle_pools c.cycles) (g.pool ∷ []),
        count-append x (g.pool ∷ []) old,
        h x,
      ),
    )
Life-Lost (after l (changed c f)) =
    let (d, e, h) = Life-Lost l in (d, e, λ x. ap (count x) (cycle_pools-change f c.cycles) ∙ h x)
Life-Lost (after l (fired c t)) =
    let (d, e, h) = Life-Lost l in
    let (g, p, same) = clean-empty c e in
    (rw p d, g, λ x. ap (λ l'. count x (cycle_pools l')) same ∙ h x)
