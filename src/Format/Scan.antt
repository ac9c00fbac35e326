-- ===== src/Format/Scan.antt =====
-- The loops over flags, width and length go on in the format, unless they meet a '.'.
use mysqlproxy.Base.{
  ℕ, zero, suc, ◌+◌, ◌-◌, ◌*◌, ◌%◌, ◌≤◌, ◌<◌, ◌≡◌, refl, inl, inr, false, ◌&&◌, Option, none, some,
  List, [], ◌∷◌, arith, leb, ◌==◌, Bool-cases,
}
use mysqlproxy.Base.Runs.{
  Run, ok, out_of_fuel, Ends, faults, ends, Ends-then, Ends-weaken, Ends-branch,
}
use mysqlproxy.State.{word}
use mysqlproxy.Posted.Process.{length}
use mysqlproxy.Format.{
  Arg, integer, c_string, counted, double, Spec, next_word, flag, flags, number, Cursor,
  length_step, lengths,
}

-- no byte of the format is a '.'
abbrev pub NoDot : List ℕ → Type 0
NoDot [] = Unit
NoDot (c ∷ fmt) = ((c == b'.') ≡ false) × NoDot fmt

-- at most `n` bytes of a format without a '.'
abbrev pub Rest : ℕ → List ℕ → Type 0
Rest n fmt = (length fmt ≤ n) × NoDot fmt

-- a directive reads a part of the format

pub flags-Rest : (s : Spec) (fmt : List ℕ) → NoDot fmt → Rest (length fmt) (flags s fmt).1
unfolding flags
flags-Rest s [] h = (omega arith, h)
flags-Rest s (c ∷ fmt) h =
    elim (flag s c)
      as (λ o.
        Rest (suc (length fmt))
          (elim o as (λ _. Spec × List ℕ) [ none ↦ (s, c ∷ fmt) | some s' ↦ flags s' fmt ]).1) [
            | none ↦ (omega arith, h)
            | some s' ↦ let (p, q) = flags-Rest s' fmt h.1 in (omega (arith, p), q)
          ]

pub number-Rest : (w : ℕ) (fmt : List ℕ) → NoDot fmt → Rest (length fmt) (number w fmt).1
unfolding number
number-Rest w [] h = (omega arith, h)
number-Rest w (c ∷ fmt) h =
    let (p, q) = number-Rest ((w * 10 + (c - b'0')) % word) fmt h.1 in
    elim (Bool-cases (leb b'0' c && leb c b'9')) [
      | inl t ↦ rw (number, t) (omega (arith, p), q)
      | inr t ↦ rw (number, t) (omega arith, h)
    ]

-- a round of the loop over width and length goes one byte on
abbrev Onward : List ℕ → Option Cursor → Type 0
Onward fmt none = Unit
Onward fmt (some r) = r.1 ≡ fmt

pub next_word-Ends : (xs : List Arg) → Ends (λ r. r.0 < word) (next_word xs)
next_word-Ends (integer n ∷ xs) = ends (omega arith)
next_word-Ends (c_string t ∷ xs) = faults
next_word-Ends (counted t ∷ xs) = faults
next_word-Ends (double d ∷ xs) = faults
next_word-Ends [] = faults

step-Ends :
    (s : Spec) (c : ℕ) (fmt : List ℕ) (xs : List Arg)
    → (c == b'.') ≡ false
    → Ends (Onward fmt) (length_step s c fmt xs)
unfolding length_step
step-Ends s c fmt xs h = rw h (
    Ends-branch (c == b'*') (λ _. Ends-then (next_word-Ends xs) (λ r p. ends refl))
      λ _.
        Ends-branch (c == b'l') (λ _. ends refl)
          λ _.
            Ends-branch (c == b'h') (λ _. ends refl)
              λ _.
                Ends-branch (c == b'x') (λ _. ends refl)
                  λ _. Ends-branch (c == b'X') (λ _. ends refl) λ _. ends tt)

after_step :
    (k : ℕ) (s : Spec) (c : ℕ) (fmt : List ℕ) (xs : List Arg)
    → NoDot (c ∷ fmt)
    → ((s' : Spec) (ys : List Arg) → Ends (λ r. Rest (length fmt) r.1) (lengths k s' fmt ys))
    → (o : Option Cursor) → Onward fmt o
    → Ends
        (λ r. Rest (length (c ∷ fmt)) r.1)
        (elim o as (λ _. Run Cursor) [
          | none ↦ ok (s, c ∷ fmt, xs)
          | some r ↦ lengths k r.0 r.1 r.2
        ])
after_step k s c fmt xs h behind none q = ends (omega arith, h)
after_step k s c fmt xs h behind (some r) q =
    rw q (Ends-weaken (behind r.0 r.2) λ _ z. (omega (arith, z.0), z.1))

pub lengths-Ends :
    (k : ℕ) (s : Spec) (fmt : List ℕ) (xs : List Arg)
    → length fmt < k
    → NoDot fmt
    → Ends (λ r. Rest (length fmt) r.1) (lengths k s fmt xs)
unfolding lengths
lengths-Ends zero s fmt xs p h = absurd (omega arith)
lengths-Ends (suc k) s [] xs p h = ends (omega arith, h)
lengths-Ends (suc k) s (c ∷ fmt) xs p h =
    Ends-then (step-Ends s c fmt xs h.0)
      (after_step k s c fmt xs h λ s' ys. lengths-Ends k s' fmt ys (omega arith) h.1)

-- At a '.', no round reads anything.
pub lengths-dot :
    (k : ℕ) (s : Spec) (fmt : List ℕ) (xs : List Arg) → lengths k s (b'.' ∷ fmt) xs ≡ out_of_fuel
unfolding lengths number
lengths-dot zero s fmt xs = refl
lengths-dot (suc k) s fmt xs = lengths-dot k _ fmt xs
