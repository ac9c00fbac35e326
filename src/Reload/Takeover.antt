-- ===== src/Reload/Takeover.antt =====
-- What becomes of the old listening sockets.
use mysqlproxy.Base.{
  Option, ◌⊎◌, ◌≢◌, ◌*◌, inr, inl, ℕ, suc, ◌+◌, ◌≤◌, ◌<◌, ◌≡◌, ◌∙◌, ◌↔◌, refl, true, false, none,
  some, List, [], ◌∷◌, arith, if◌then◌else◌, Bool-cases,
}
use mysqlproxy.Pool.Balance.{count}
use mysqlproxy.Reload.{
  Sockaddr, sin_addr, cmp_sockaddr, Entry, backlog_at, take_over, take_all, clear, open_all,
  inherit, close_old, roll_back,
}

abbrev pub AreBytes : Sockaddr → Type 0
AreBytes a = (i : ℕ) → i < 8 → a i < 256

-- spy_cmp_sockaddr finds two addresses the same exactly if their first eight bytes are, those of the
-- family, the port and the IPv4 address, whatever the family is and whatever follows.
pub cmp_sockaddr-eq :
    (a b : Sockaddr)
    → AreBytes a
    → AreBytes b
    → (cmp_sockaddr a b ≡ true) ↔ ((i : ℕ) → i < 8 → a i ≡ b i)
unfolding cmp_sockaddr
cmp_sockaddr-eq a b p q = (
  λ h.
      let (f, f') =
        unpair (a 0) (b 0) (a 1) (b 1) (p 0 (omega arith)) (q 0 (omega arith))
          (ground (arith, h)) in
      let (g, g') =
        unpair (a 2) (b 2) (a 3) (b 3) (p 2 (omega arith)) (q 2 (omega arith))
          (ground (arith, h)) in
      let e : sin_addr a ≡ sin_addr b = ground (arith, h) in
      by_place f f' g g' (omega (arith, e, p 4, p 5, p 6, q 4, q 5, q 6))
        (omega (arith, e, p 4, p 5, p 6, q 4, q 5, q 6))
        (omega (arith, e, p 4, p 5, p 6, q 4, q 5, q 6))
        (omega (arith, e, p 4, p 5, p 6, q 4, q 5, q 6)),
  λ h.
      rw
        (
          h 0 (omega arith),
          h 1 (omega arith),
          h 2 (omega arith),
          h 3 (omega arith),
          h 4 (omega arith),
          h 5 (omega arith),
          h 6 (omega arith),
          h 7 (omega arith),
        )
        (ground arith),
)
  where
    unpair : (x y x' y' : ℕ) → x < 256 → y < 256 → x + 256 * x' ≡ y + 256 * y' → (x ≡ y) × (x' ≡ y')
    unpair x y x' y' p q e = (omega (arith, e), omega (arith, e))

    by_place :
        a 0 ≡ b 0
        → a 1 ≡ b 1
        → a 2 ≡ b 2
        → a 3 ≡ b 3
        → a 4 ≡ b 4
        → a 5 ≡ b 5
        → a 6 ≡ b 6
        → a 7 ≡ b 7
        → (i : ℕ) → i < 8
        → a i ≡ b i
    by_place e e' e'' e3 e4 e5 e6 e7 i h = grind arith

-- the descriptors of some entries, and of those that are marked `remain`
abbrev pub fds : List Entry → List ℕ
fds [] = []
fds (e ∷ es) = elim e.fd [ none ↦ fds es | some s ↦ s ∷ fds es ]

abbrev remaining : List Entry → List ℕ
remaining [] = []
remaining (o ∷ os) =
    if o.remain then elim o.fd [ none ↦ remaining os | some s ↦ s ∷ remaining os ] else remaining os

-- the loop that closes skips those
close-remaining :
    (s : ℕ) (os : List Entry) → count s (close_old os) + count s (remaining os) ≡ count s (fds os)
unfolding close_old
close-remaining s [] = refl
close-remaining s (o ∷ os) = ground (arith, close-remaining s os)

remaining-clear : (s : ℕ) (os : List Entry) → count s (remaining (clear os)) ≡ 0
remaining-clear s [] = refl
remaining-clear s (o ∷ os) = remaining-clear s os

fds-clear : (s : ℕ) (os : List Entry) → count s (fds (clear os)) ≡ count s (fds os)
fds-clear s [] = refl
fds-clear s (o ∷ os) = ground (arith, fds-clear s os)

-- one new entry: the old descriptors stay, and one that it gets is marked
record Taken (e : Entry) (os : List Entry) (r : Entry × List Entry) : Type 0 where
  same_fds : (s : ℕ) → count s (fds r.1) ≡ count s (fds os)
  grown : (s : ℕ) → count s (remaining os) ≤ count s (remaining r.1)
  only_got : (s : ℕ) → count s (remaining r.1) ≤ count s (remaining os) + count s (fds (r.0 ∷ []))
  got : (s : ℕ) → count s (fds (r.0 ∷ [])) ≤ count s (remaining r.1)
  closed : r.0.to_open ≡ e.to_open

take_over-Taken :
    (nb : ℕ → ℕ) (b : ℕ) (e : Entry) (i : ℕ) (os : List Entry)
    → e.fd ≡ none
    → Taken e os (take_over nb b e i os)
unfolding take_over
take_over-Taken nb b e i [] h = record {
  same_fds = λ s. refl;
  grown = λ s. omega arith;
  only_got = λ s. omega arith;
  got = λ s. rw h (omega arith);
  closed = refl;
}
take_over-Taken nb b e i (o ∷ os) h = elim (Bool-cases (cmp_sockaddr e.sockaddr o.sockaddr)) [
  | inl t ↦ rw t record {
    same_fds = λ s. refl;
    grown = λ s. ground arith;
    only_got = λ s. ground arith;
    got = λ s. ground arith;
    closed = refl;
  }
  | inr t ↦
      let r = take_over-Taken nb b e (suc i) os h in
      rw t record {
        same_fds = λ s. ground (arith, r.same_fds s);
        grown = λ s. ground (arith, r.grown s);
        only_got = λ s. ground (arith, r.only_got s);
        got = λ s. ground (arith, r.got s);
        closed = r.closed;
      }
]

-- entries that come from the configuration: without a socket, and not yet to be opened
abbrev pub AreFresh : List Entry → Type 0
AreFresh [] = Unit
AreFresh (e ∷ es) = (e.fd ≡ none) × (e.to_open ≡ false) × AreFresh es

-- no entry that has a socket is marked to be opened
abbrev pub AreClosed : List Entry → Type 0
AreClosed [] = Unit
AreClosed (e ∷ es) = ((e.fd ≡ none) ⊎ (e.to_open ≡ false)) × AreClosed es

-- the entries after sockets have been opened: the entry `i` without one has got `made i`, if any
abbrev pub with_sockets : (ℕ → Option ℕ) → ℕ → List Entry → List Entry
with_sockets made i [] = []
with_sockets made i (e ∷ es) =
    record e { fd = elim e.fd [ none ↦ made i | some s ↦ some s ] } ∷ with_sockets made (suc i) es

roll_back-made :
    (made : ℕ → Option ℕ) (s i : ℕ) (es : List Entry)
    → AreClosed es
    → ((j : ℕ) → made j ≢ some s)
    → count s (roll_back (with_sockets made i es)) ≡ 0
unfolding roll_back
roll_back-made made s i [] c new = refl
roll_back-made made s i (e ∷ es) c new =
    ground (arith, c.0, new i, roll_back-made made s (suc i) es c.1 new)

-- the same of all new entries
record AllTaken (new os : List Entry) (r : List Entry × List Entry) : Type 0 where
  same_fds : (s : ℕ) → count s (fds r.1) ≡ count s (fds os)
  grown : (s : ℕ) → count s (remaining os) ≤ count s (remaining r.1)
  only_got : (s : ℕ) → count s (remaining r.1) ≤ count s (remaining os) + count s (fds r.0)
  got : (s : ℕ) → 0 < count s (fds r.0) → 0 < count s (remaining r.1)
  closed : AreClosed r.0

take_all-AllTaken :
    (nb ob : ℕ → ℕ) (n : ℕ) (new os : List Entry)
    → AreFresh new
    → AllTaken new os (take_all nb ob n new os)
unfolding take_all roll_back
take_all-AllTaken nb ob n [] os f = record {
  same_fds = λ s. refl;
  grown = λ s. omega arith;
  only_got = λ s. omega arith;
  got = λ s p. absurd (omega arith);
  closed = tt;
}
take_all-AllTaken nb ob n (e ∷ es) os f =
    let t = take_over-Taken nb (ob n) e 0 os f.0 in
    let r = take_all-AllTaken nb ob (suc n) es (take_over nb (ob n) e 0 os).1 f.2 in
    record {
      same_fds = λ s. r.same_fds s ∙ t.same_fds s;
      grown = λ s. omega (arith, r.grown s, t.grown s);
      only_got = λ s. ground (arith, r.only_got s, t.only_got s);
      got = λ s p. ground (arith, r.got s, r.grown s, t.got s);
      closed = (ground (arith, t.closed, f.1), r.closed);
    }

-- what becomes of the old sockets, for the new entries and the old ones in `r`
pub record Handed (old : List Entry) (r : List Entry × List Entry) : Type 0 where
  pub used : (s : ℕ) → 0 < count s (fds r.0) → count s (close_old r.1) ≡ 0
  pub unused : (s : ℕ) → count s (fds r.0) ≡ 0 → count s (close_old r.1) ≡ count s (fds old)
  pub rolled_back :
      (made : ℕ → Option ℕ) (s : ℕ)
      → ((j : ℕ) → made j ≢ some s)
      → count s (roll_back (with_sockets made 0 r.0)) ≡ 0

open_all-AreClosed : (es : List Entry) → AreFresh es → AreClosed (open_all es)
open_all-AreClosed [] f = tt
open_all-AreClosed (e ∷ es) f = (inl f.0, open_all-AreClosed es f.2)

-- If the old configuration listens on no socket twice, then of its sockets the roll-back and the
-- closing loop of spy_global_init treat each as they should, whatever the new configuration lists: a
-- socket that a new entry has taken over is not closed, one that none has taken over is closed as often
-- as it is there; and if the start of the new configuration fails, before or after sockets have been made for
-- entries without one, the roll-back closes no other socket than those.
pub inherit-Handed :
    (behind behind_old : ℕ → ℕ) (new old : List Entry)
    → AreFresh new
    → ((s : ℕ) → count s (fds old) ≤ 1)
    → Handed old (inherit behind behind_old new old)
unfolding close_old
inherit-Handed behind behind_old new [] f once = record {
  used = λ s p. refl;
  unused = λ s p. refl;
  rolled_back = λ made s h. roll_back-made made s 0 (open_all new) (open_all-AreClosed new f) h;
}
inherit-Handed behind behind_old new (o ∷ os) f once =
    let r =
      take_all-AllTaken (backlog_at behind new) (backlog_at behind_old (o ∷ os)) 0 new
        (clear (o ∷ os)) f in
    let all = λ (s : ℕ).
      close-remaining s (inherit behind behind_old new (o ∷ os)).1
      ∙ r.same_fds s
      ∙ fds-clear s (o ∷ os) in
    record {
      used = λ s p. omega (arith, all s, r.got s p, once s);
      unused = λ s p. omega (arith, all s, r.only_got s, remaining-clear s (o ∷ os), p);
      rolled_back =
          λ made s h. roll_back-made made s 0 (inherit behind behind_old new (o ∷ os)).0 r.closed h;
    }
