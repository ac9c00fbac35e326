-- ===== src/Printf/Ends.antt =====
-- The format loop ends on formats without a '.', and never writes in front of `buf`.
use mysqlproxy.Base.{
  ℕ, zero, suc, ◌+◌, ◌-◌, ◌%◌, ◌^◌, leb, ◌≤◌, ◌<◌, Option, none, some, List, [], ◌∷◌, arith, ltb,
  ◌==◌,
}
use mysqlproxy.Base.Runs.{Run, ok, ◌>>=◌, Ends, faults, ends, Ends-then, Ends-weaken, Ends-branch}
use mysqlproxy.Posted.Process.{length}
use mysqlproxy.Text.{copy}
use mysqlproxy.Format.{
  Arg, integer, c_string, counted, double, Spec, Out, Fpu, bytes, put, initial_spec, flags, Cursor,
  print_number,
}
use mysqlproxy.Printf.{
  Place, other_directive, string_directive, counted_directive, double_directive, newline_directive,
  directive, specifier, expand, vslprintf,
}
use mysqlproxy.Format.Scan.{NoDot, Rest, flags-Rest, number-Rest, next_word-Ends, lengths-Ends}
use mysqlproxy.Format.Ahead.{Ahead, Ahead-same, Ahead-trans, put-Ahead, pad-Ahead, copy-Ahead}
use mysqlproxy.Format.Numbers.{Small, number_arg-Ends, print_number-Ends, print_double-Ends}

-- a place further on, in the output and in the format
abbrev Further : Out → List ℕ → Place → Type 0
Further o fmt p = Ahead o p.0 × (length p.1 ≤ length fmt) × NoDot p.1

c_string-Ends :
    (o : Out) (last : ℕ) (s : Spec) (fmt : List ℕ) (xs : List Arg)
    → NoDot fmt
    → Ends (Further o fmt) (string_directive o last s fmt xs)
c_string-Ends o last s fmt (c_string t ∷ xs) h = ends (pad-Ahead o last s t, omega arith, h)
c_string-Ends o last s fmt (integer n ∷ xs) h = faults
c_string-Ends o last s fmt (counted t ∷ xs) h = faults
c_string-Ends o last s fmt (double d ∷ xs) h = faults
c_string-Ends o last s fmt [] h = faults

counted-Ends :
    (o : Out) (last : ℕ) (s : Spec) (fmt : List ℕ) (xs : List Arg)
    → NoDot fmt
    → Ends (Further o fmt) (counted_directive o last s fmt xs)
counted-Ends o last s fmt (counted t ∷ xs) h = ends (pad-Ahead o last s t, omega arith, h)
counted-Ends o last s fmt (integer n ∷ xs) h = faults
counted-Ends o last s fmt (c_string t ∷ xs) h = faults
counted-Ends o last s fmt (double d ∷ xs) h = faults
counted-Ends o last s fmt [] h = faults

double-Ends :
    (fpu : Fpu) (o : Out) (last : ℕ) (s : Spec) (fmt : List ℕ) (xs : List Arg)
    → NoDot fmt
    → Ends (Further o fmt) (double_directive fpu o last s fmt xs)
unfolding double_directive
double-Ends fpu o last s fmt (double d ∷ xs) h =
    Ends-then (print_double-Ends fpu o last s d) λ _ a. ends (a, omega arith, h)
double-Ends fpu o last s fmt (integer n ∷ xs) h = faults
double-Ends fpu o last s fmt (c_string t ∷ xs) h = faults
double-Ends fpu o last s fmt (counted t ∷ xs) h = faults
double-Ends fpu o last s fmt [] h = faults

newline-Ends :
    (o : Out) (fmt : List ℕ) (xs : List Arg)
    → NoDot fmt
    → Ends (Further o fmt) (newline_directive o fmt xs)
newline-Ends o [] xs h = faults
newline-Ends o (c ∷ fmt) xs h =
    ends (Ahead-trans (put-Ahead o 10) (put-Ahead (put o 10) b'%'), omega arith, h.1)

other-Ends :
    (o : Out) (last : ℕ) (r_fmt : List ℕ) (s : Spec) (c : ℕ) (fmt : List ℕ) (xs : List Arg)
    → NoDot fmt
    → Ends (Further o fmt) (other_directive o last r_fmt s c fmt xs)
unfolding other_directive
other-Ends o last r_fmt s c fmt xs h = Ends-then (number_arg-Ends s c xs) printed
  where
    printed :
        (n : Option (ℕ × Spec × List Arg))
        → Small n
        → Ends (Further o fmt) (elim n as (λ _. Run Place) [
          | some v ↦ print_number o last v.1 v.0 >>= λ o'. ok (o', fmt, v.2)
          | none ↦
              let len = length r_fmt - length fmt in
              ok (record { mem = copy o.mem o.buf (bytes r_fmt) len; buf = o.buf + len }, fmt, xs)
        ])
    printed none p = ends (copy-Ahead o (bytes r_fmt) _, omega arith, h)
    printed (some v) p =
        Ends-then (print_number-Ends o last v.1 v.0 p) λ _ a. ends (a, omega arith, h)

directive-Ends :
    (fpu : Fpu) (o : Out) (last : ℕ) (r_fmt : List ℕ) (s : Spec) (c : ℕ) (fmt : List ℕ)
    (xs : List Arg)
    → NoDot fmt
    → Ends (Further o fmt) (directive fpu o last r_fmt s c fmt xs)
unfolding directive
directive-Ends fpu o last r_fmt s c fmt xs h =
    Ends-branch (c == b's') (λ _. c_string-Ends o last s fmt xs h)
      λ _.
        Ends-branch (c == b'S') (λ _. counted-Ends o last s fmt xs h)
          λ _.
            Ends-branch (c == b'c')
              (λ _.
                Ends-then (next_word-Ends xs)
                  λ r _. ends (pad-Ahead o last s (r.0 % 256 ∷ []), omega arith, h))
              λ _.
                Ends-branch (c == b'f') (λ _. double-Ends fpu o last s fmt xs h)
                  λ _.
                    Ends-branch (c == b'Z') (λ _. ends (put-Ahead o 0, omega arith, h))
                      λ _.
                        Ends-branch (c == b'N') (λ _. newline-Ends o fmt xs h)
                          λ _.
                            Ends-branch (c == b'%') (λ _. ends (put-Ahead o b'%', omega arith, h))
                              λ _. other-Ends o last r_fmt s c fmt xs h

specifier-Ends :
    (fpu : Fpu) (o : Out) (last : ℕ) (r_fmt fmt : List ℕ) (r : Cursor)
    → Rest (length fmt) r.1
    → Ends (Further o fmt) (specifier fpu o last r_fmt r)
unfolding specifier
specifier-Ends fpu o last r_fmt fmt (s, [], xs) h = faults
specifier-Ends fpu o last r_fmt fmt (s, c ∷ fmt', xs) h =
    Ends-branch (leb (2 ^ 31) s.width) (λ _. faults)
      λ _.
        Ends-weaken (directive-Ends fpu o last r_fmt s c fmt' xs h.1.1)
          λ _ f. (f.0, omega (arith, f.1, h.0), f.2)

expand-Ends :
    (fpu : Fpu) (k : ℕ) (o : Out) (last : ℕ) (fmt : List ℕ) (xs : List Arg)
    → length fmt < k
    → NoDot fmt
    → Ends (Further o fmt) (expand fpu k o last fmt xs)
unfolding expand
expand-Ends fpu k o last fmt xs p h =
    let (q, h') = flags-Rest initial_spec fmt h in
    let (q', h'') = number-Rest 0 (flags initial_spec fmt).1 h' in
    Ends-then (lengths-Ends k _ _ xs (omega (arith, p, q, q')) h'')
      λ r z. specifier-Ends fpu o last (b'%' ∷ fmt) fmt r (omega (arith, z.0, q, q'), z.1)

-- On a format in which no byte is a '.', the format loop ends, with the length of the format as a bound
-- of its rounds: it makes an access that C leaves undefined, such as of an argument that was not passed or
-- behind the end of the format, or it returns a pointer that is not in front of `buf`,
-- and has written nothing in front of `buf`.
pub vslprintf-Ends :
    (fpu : Fpu) (k : ℕ) (o : Out) (last : ℕ) (fmt : List ℕ) (xs : List Arg)
    → length fmt < k
    → NoDot fmt
    → Ends (Ahead o) (vslprintf fpu k o last fmt xs)
unfolding vslprintf
vslprintf-Ends fpu zero o last fmt xs p h = absurd (omega arith)
vslprintf-Ends fpu (suc k) o last [] xs p h = ends (Ahead-same o)
vslprintf-Ends fpu (suc k) o last (c ∷ fmt) xs p h =
    Ends-branch (ltb o.buf last)
      (λ _.
        Ends-branch (c == b'%')
          (λ _. Ends-then (expand-Ends fpu k o last fmt xs (omega arith) h.1) λ r f.
            Ends-weaken (vslprintf-Ends fpu k r.0 last r.1 r.2 (omega (arith, f.1)) f.2)
              (λ _ a. Ahead-trans f.0 a))
          (λ _.
            Ends-weaken (vslprintf-Ends fpu k (put o c) last fmt xs (omega arith) h.1)
              (λ _ a. Ahead-trans (put-Ahead o c) a)))
      (λ _. ends (Ahead-same o))
