-- ===== src/Format/Numbers.antt =====
-- The directives that print integers and doubles end.
use mysqlproxy.Base.{
  ℕ, zero, suc, ◌+◌, ◌-◌, ◌/◌, ◌%◌, ◌^◌, ◌<◌, ◌≡◌, inl, inr, Bool, true, false, ◌&&◌, ◌||◌, Option,
  none, some, List, [], ◌∷◌, ◌++◌, arith, ltb, leb, ◌==◌, if◌then◌else◌, Bool-cases,
}
use mysqlproxy.Base.Runs.{
  ok, ◌>>=◌, Ends, faults, ends, Ends-then, Ends-weaken, Ends-branch, Returns-Ends,
}
use native.Mathlib.Nat.{div-le_self}
use mysqlproxy.State.{word}
use mysqlproxy.Text.{sprintf_num}
use mysqlproxy.Text.Number.{sprintf_num-Printed}
use mysqlproxy.Format.{
  Arg, Spec, Out, Fpu, put, pad, next_word, extend32, number_arg, minus_sign, print_number, modf,
  fraction, print_double,
}
use mysqlproxy.Format.Scan.{next_word-Ends}
use mysqlproxy.Format.Ahead.{Ahead, Ahead-same, Ahead-trans, put-Ahead, pad-Ahead}

-- the numbers that are printed have 64 bits

abbrev pub Small : Option (ℕ × Spec × List Arg) → Type 0
Small none = Unit
Small (some v) = v.0 < word

word_arg :
    (xs : List Arg) (f : ℕ → ℕ) (s : Spec)
    → ((n : ℕ) → n < word → f n < word)
    → Ends Small (next_word xs >>= λ r. ok (some (f r.0, s, r.1)))
word_arg xs f s h = Ends-then (next_word-Ends xs) (λ r p. ends (h r.0 p))

extend32-lt : (n : ℕ) → extend32 n < word
extend32-lt n = ground arith

pub number_arg-Ends : (s : Spec) (c : ℕ) (xs : List Arg) → Ends Small (number_arg s c xs)
unfolding number_arg
number_arg-Ends s c xs =
    let long = s.l_int == 1 || s.l_int == 2 in
    Ends-branch (c == b'd' || c == b'i')
      (λ _.
        word_arg xs (λ n. if long then n else extend32 n) s (λ n h. ground (arith, extend32-lt n)))
      λ _.
        Ends-branch (c == b'u')
          (λ _.
            word_arg xs (λ n. if long then n else n % 2 ^ 32) (record s { sign = false })
              (λ n h. ground arith))
          λ _.
            Ends-branch (c == b'p') (λ _. word_arg xs (λ n. n) _ (λ n h. h))
              λ _.
                Ends-branch (c == b'P') (λ _. word_arg xs extend32 _ (λ n h. extend32-lt n))
                  λ _. Ends-branch (c == b'z') (λ _. word_arg xs (λ n. n) _ (λ n h. h)) λ _. ends tt

pub sprintf_num-Ends : (n hex : ℕ) → n < word → Ends (λ _. Unit {0}) (sprintf_num n hex [])
unfolding sprintf_num
sprintf_num-Ends n hex p = elim (Bool-cases (leb hex 2)) [
  | inl t ↦ Ends-weaken (Returns-Ends (sprintf_num-Printed n hex [] p (ground arith))) (λ _ _. tt)
  | inr t ↦
      let zero : (hex == 0) ≡ false = ground arith in
      let one : (hex == 1) ≡ false = ground arith in
      let two : (hex == 2) ≡ false = ground arith in rw (zero, one, two) (ends tt)
]

modf-Ends : (fpu : Fpu) (d : ℕ) → Ends (λ r. r.1 < word) (modf fpu d)
unfolding modf
modf-Ends fpu d =
    let calc = d % 2 ^ 63 in
    let e = calc / 2 ^ 52 % 2 ^ 11 - 1023 in
    let z = calc % 2 ^ 52 + 2 ^ 52 in
    Ends-branch (ltb calc 0x3ff0000000000000) (λ _. ends (omega arith))
      λ _.
        Ends-branch (ltb 52 e) (λ _. faults) λ _. ends (omega (arith, div-le_self z (2 ^ (52 - e))))

fraction-Ends : (fpu : Fpu) (k frac : ℕ) → Ends (λ _. Unit {0}) (fraction fpu k frac)
unfolding fraction
fraction-Ends fpu zero frac = ends tt
fraction-Ends fpu (suc k) frac = Ends-then (modf-Ends fpu (fpu.times_ten frac)) λ r p.
    Ends-branch (r.0 % 2 ^ 63 == 0) (λ _. ends tt)
      λ _. Ends-then (fraction-Ends fpu k r.0) (λ _ _. ends tt)

-- every directive moves forward in the output and on in the format

minus_sign-Ends :
    (o : Out) (s : Spec) (v : ℕ)
    → v < word
    → Ends (λ r. Ahead o r.0 × (r.1 < word)) (minus_sign o s v)
minus_sign-Ends o s v p =
    Ends-branch (s.sign && leb (2 ^ 63) v)
      (λ t. Ends-branch (v == 2 ^ 63) (λ _. faults) λ _. ends (put-Ahead o b'-', ground arith))
      λ _. ends (Ahead-same o, p)

pub print_number-Ends :
    (o : Out) (last : ℕ) (s : Spec) (v : ℕ) → v < word → Ends (Ahead o) (print_number o last s v)
unfolding print_number
print_number-Ends o last s v p = Ends-then (minus_sign-Ends o s v p) λ r h.
    Ends-then (sprintf_num-Ends r.1 s.hex h.1)
      λ ds _. ends (Ahead-trans h.0 (pad-Ahead r.0 last s ds))

signed-Ahead : (o : Out) (b : Bool) → Ahead o (if b then put o b'-' else o)
signed-Ahead o true = put-Ahead o b'-'
signed-Ahead o false = Ahead-same o

pub print_double-Ends :
    (fpu : Fpu) (o : Out) (last : ℕ) (s : Spec) (d : ℕ)
    → Ends (Ahead o) (print_double fpu o last s d)
unfolding print_double
print_double-Ends fpu o last s d = Ends-then (modf-Ends fpu d) λ r p.
    Ends-then (sprintf_num-Ends r.1 0 p) λ ds _.
      Ends-then
        {k = λ fs. ok (
          pad (if ltb (2 ^ 63) d && leb d 0xfff0000000000000 then put o b'-' else o) last s
            (ds ++ b'.' ∷ fs))}
        (fraction-Ends fpu
          (if s.frac_width == 0 then (if ltb 0 s.l_int then 15 else 6) else s.frac_width) r.0)
        λ fs _. ends (
          Ahead-trans (signed-Ahead o (ltb (2 ^ 63) d && leb d 0xfff0000000000000))
            (pad-Ahead _ last s (ds ++ b'.' ∷ fs)))
