-- ===== src/Reload/Tests.antt =====
-- Two configurations that listen, and the clearing of one.
use mysqlproxy.Base.{
  if◌then◌else◌, ◌==◌, ◌<◌, ℕ, ◌≤◌, ◌≡◌, refl, false, true, some, none, Option, List, [], ◌∷◌,
  arith, ◌↔◌,
}
use mysqlproxy.Pool.Balance.{count}
use mysqlproxy.Reload.{Sockaddr, cmp_sockaddr, Entry, take_all, inherit, Global, Cleaner, clean}
use mysqlproxy.Reload.Takeover.{fds, Handed, inherit-Handed, cmp_sockaddr-eq}

abbrev at_port : ℕ → Sockaddr
at_port p i = if i == 0 then 2 else if i == 3 then p else 0

abbrev listening_on : ℕ → Option ℕ → ℕ → Entry
listening_on p s b = record {
  sockaddr = at_port p;
  fd = s;
  backlog = b;
  listen = false;
  to_open = false;
  remain = false;
}

abbrev old_entries : List Entry
old_entries = listening_on 80 (some 6) 511 ∷ listening_on 81 (some 7) 511 ∷ []

abbrev new_entries : List Entry
new_entries = listening_on 82 none 511 ∷ listening_on 81 none 511 ∷ []

cmp_sockaddr-eq_example :
    (cmp_sockaddr (at_port 80) (at_port 81) ≡ true)
    ↔ ((i : ℕ) → i < 8 → at_port 80 i ≡ at_port 81 i)
cmp_sockaddr-eq_example =
    cmp_sockaddr-eq (at_port 80) (at_port 81) (λ i h. ground arith) (λ i h. ground arith)

-- two IPv6 addresses that differ in their last byte are the same to it
abbrev ipv6 : ℕ → Sockaddr
ipv6 last i = if i == 0 then 10 else if i == 23 then last else 0

cmp_ipv6 : cmp_sockaddr (ipv6 1) (ipv6 2) ≡ true
unfolding cmp_sockaddr
cmp_ipv6 = refl

old_once : (s : ℕ) → count s (fds old_entries) ≤ 1
old_once s = ground arith

inherit-Handed_example : Handed old_entries (inherit (λ i. 0) (λ i. 0) new_entries old_entries)
inherit-Handed_example =
    inherit-Handed (λ i. 0) (λ i. 0) new_entries old_entries (refl, refl, (refl, refl, tt)) old_once

-- The backlogs that are compared are 511, of the old entry at number 0, and 128, of the new entry at
-- number 1: the entry that takes over a socket with its backlog of 511 is to listen again.
abbrev other_backlogs : List Entry
other_backlogs = listening_on 81 none 511 ∷ listening_on 82 none 128 ∷ []

backlog_run :
    (inherit (λ i. 0) (λ i. 0) other_backlogs old_entries).0
    ≡ record (listening_on 81 (some 7) 511) { listen = true }
      ∷ record (listening_on 82 none 128) { to_open = true }
      ∷ []
unfolding take_all
backlog_run = refl

abbrev busy_global : Global
busy_global = record { connections = none ∷ some 9 ∷ []; pool = 4096 }

abbrev idle_global : Global
idle_global = record { connections = none ∷ none ∷ []; pool = 8192 }

abbrev two_listed : Cleaner
two_listed = record {
  cycles = [];
  globals = some busy_global ∷ none ∷ some idle_global ∷ [];
  timer_set = true;
}

-- the one without a connection is destroyed
clean_run :
    clean two_listed
    ≡ (record two_listed { globals = some busy_global ∷ none ∷ none ∷ [] }, 8192 ∷ [])
unfolding clean
clean_run = refl
