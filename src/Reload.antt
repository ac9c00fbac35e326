-- ===== src/Reload.antt =====
-- core/spy_global.c: how a new configuration takes over the listening sockets of the old one, closes
-- the others or is rolled back, and how old configurations are cleared away.
pub mod Takeover
pub mod Cleaning
mod Tests
use mysqlproxy.Base.{
  ℕ, zero, suc, ◌+◌, ◌*◌, ◌^◌, Bool, true, false, ◌&&◌, ◌||◌, not, Option, none, some, List, [],
  ◌∷◌, ◌++◌, ◌==◌, if◌then◌else◌,
}

-- a `struct sockaddr` of any family, as its bytes: the family is in the first two of them, and where a
-- `struct sockaddr_in` has its port and its address are the next six
abbrev pub Sockaddr : Type 0
Sockaddr = ℕ → ℕ

abbrev pub family : Sockaddr → ℕ
family a = a 0 + 256 * a 1

abbrev pub sin_port : Sockaddr → ℕ
sin_port a = a 2 + 256 * a 3

abbrev pub sin_addr : Sockaddr → ℕ
sin_addr a = a 4 + 256 * a 5 + 256 ^ 2 * a 6 + 256 ^ 3 * a 7

-- `spy_cmp_sockaddr`: whether it gives SPY_OK, and not SPY_DECLINED; every family is compared as AF_INET
unfoldable pub cmp_sockaddr : Sockaddr → Sockaddr → Bool
cmp_sockaddr a b =
    if not (family a == family b)
    then false
    else if not (sin_port a == sin_port b)
    then false
    else if not (sin_addr a == sin_addr b)
    then false
    else true

-- `spy_listening_s`, less the fields that taking over does not use
pub record Entry : Type 0 where
  pub sockaddr : Sockaddr
  pub fd : Option ℕ
  pub backlog : ℕ
  pub listen : Bool
  pub to_open : Bool
  pub remain : Bool

-- `ls[n].backlog` or `nls[i].backlog`, by number, where `behind` is what stands behind the entries
abbrev pub backlog_at : (ℕ → ℕ) → List Entry → ℕ → ℕ
backlog_at behind [] i = behind i
backlog_at behind (e ∷ es) zero = e.backlog
backlog_at behind (e ∷ es) (suc i) = backlog_at behind es i

-- The inner loop, over the old entries from number `i` on. Neither backlog that is compared is one of the
-- two entries': `b` is that of the old entry of the new one's number, and `nb i` that of the new entry of
-- the old one's number.
unfoldable pub take_over : (ℕ → ℕ) → ℕ → Entry → ℕ → List Entry → Entry × List Entry
unfolding cmp_sockaddr
take_over nb b e i [] = (e, [])
take_over nb b e i (o ∷ os) =
    let rest = take_over nb b e (suc i) os in
    if cmp_sockaddr e.sockaddr o.sockaddr
    then (
      record e { fd = o.fd; listen = if b == nb i then e.listen else true },
      record o { remain = true } ∷ os,
    )
    else (rest.0, o ∷ rest.1)

-- `if (nls[n].fd == -1) nls[n].open = 1;`
abbrev pub mark_open : Entry → Entry
mark_open e = record e { to_open = elim e.fd [ none ↦ true | some s ↦ e.to_open ] }

-- the outer loop, over the new entries from number `n` on
unfoldable pub take_all : (nb ob : ℕ → ℕ) → ℕ → List Entry → List Entry → List Entry × List Entry
unfolding take_over
take_all nb ob n [] old = ([], old)
take_all nb ob n (e ∷ es) old =
    let r = take_over nb (ob n) e 0 old in
    let rest = take_all nb ob (suc n) es r.1 in (mark_open (r.0) ∷ rest.0, rest.1)

-- `ls[i].remain = 0;`
abbrev pub clear : List Entry → List Entry
clear [] = []
clear (o ∷ os) = record o { remain = false } ∷ clear os

-- `ls[i].open = 1;`
abbrev pub open_all : List Entry → List Entry
open_all [] = []
open_all (e ∷ es) = record e { to_open = true } ∷ open_all es

-- the part of `spy_global_init` that handles the listening sockets: the new entries and the old ones
abbrev pub inherit : (behind behind_old : ℕ → ℕ) → List Entry → List Entry → List Entry × List Entry
inherit behind behind_old new [] = (open_all new, [])
inherit behind behind_old new (o ∷ os) =
    take_all (backlog_at behind new) (backlog_at behind_old (o ∷ os)) 0 new (clear (o ∷ os))

-- the descriptors that the loop behind "close the old listen" closes
unfoldable pub close_old : List Entry → List ℕ
close_old [] = []
close_old (o ∷ os) =
    let rest = close_old os in
    if o.remain then rest else elim o.fd [ none ↦ rest | some s ↦ s ∷ rest ]

-- the descriptors that the roll back closes
unfoldable pub roll_back : List Entry → List ℕ
roll_back [] = []
roll_back (e ∷ es) =
    let rest = roll_back es in
    elim e.fd [ none ↦ rest | some s ↦ if not e.to_open then rest else s ∷ rest ]

-- an old configuration: the descriptors of its connections, and its pool
pub record Global : Type 0 where
  pub connections : List (Option ℕ)
  pub pool : ℕ

-- the inner loop of `spy_clean_old_global`: `found`
unfoldable pub has_live : List (Option ℕ) → Bool
has_live [] = false
has_live (none ∷ cs) = has_live cs
has_live (some s ∷ cs) = true

-- what its outer loop leaves: `live`, the array, and the pools that it destroys
pub record Sweep : Type 0 where
  pub live : Bool
  pub globals : List (Option Global)
  pub destroyed : List ℕ

unfoldable pub sweep : Bool → List (Option Global) → Sweep
unfolding has_live
sweep live [] = record { live = live; globals = []; destroyed = [] }
sweep live (none ∷ gs) = let rest = sweep live gs in record rest { globals = none ∷ rest.globals }
sweep live (some g ∷ gs) =
    let kept = sweep true gs in
    let gone = sweep live gs in
    if has_live g.connections
    then record kept { globals = some g ∷ kept.globals }
    else record gone { globals = none ∷ gone.globals; destroyed = g.pool ∷ gone.destroyed }

-- The array that the end of `spy_global_init` pushes to, `spy_old_cycles`, the array `spy_old_globals`
-- that it sets up and the cleaner reads, and whether the timer of the cleaner runs. Without the timer
-- there is no pool for the latter.
pub record Cleaner : Type 0 where
  pub cycles : List Global
  pub globals : List (Option Global)
  pub timer_set : Bool

-- `spy_clean_old_global`, and the pools that it destroys besides that of the list
unfoldable pub clean : Cleaner → Cleaner × List ℕ
unfolding sweep
clean c =
    let r = sweep false c.globals in
    (
      if r.live
          then record c { globals = r.globals; timer_set = true }
          else record c { globals = []; timer_set = false },
      r.destroyed,
    )

-- the end of `spy_global_init`: the old global goes to `spy_old_cycles`, and the timer is set
abbrev pub retire : Cleaner → Global → Cleaner
retire c g = record c { cycles = c.cycles ++ g ∷ []; timer_set = true }
