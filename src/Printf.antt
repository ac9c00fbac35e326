-- ===== src/Printf.antt =====
-- core/spy_string.c: the format loop `spy_vslprintf` and the functions that call it. What a directive
-- consists of is in Format.
pub mod Ends
pub mod Dot
pub mod Items
pub mod Render
mod Tests
use mysqlproxy.Base.{
  ℕ, zero, suc, ◌+◌, ◌-◌, ◌*◌, ◌/◌, ◌%◌, ◌^◌, Bool, true, false, ◌&&◌, ◌||◌, Option, none, some,
  List, [], ◌∷◌, ◌++◌, update, ltb, leb, ◌==◌, if◌then◌else◌,
}
use mysqlproxy.Base.Runs.{Run, ok, fault, out_of_fuel, ◌>>=◌}
use mysqlproxy.State.{word}
use mysqlproxy.Posted.Process.{length}
use mysqlproxy.Text.{copy, printf_pad, sprintf_num}
use mysqlproxy.Format.{
  integer, c_string, counted, double, Arg, Spec, Out, Fpu, bytes, put, pad, next_word, extend32,
  initial_spec, flag, flags, number, Cursor, length_step, lengths, number_arg, minus_sign,
  print_number, modf, fraction, print_double,
}

-- where the format loop goes on: the output, the format and the arguments that are left
abbrev pub Place : Type 0
Place = Out × List ℕ × List Arg

-- the specifiers of integers, or the default, which copies the text of the directive from `r_fmt` on
pub other_directive : Out → ℕ → List ℕ → Spec → ℕ → List ℕ → List Arg → Run Place
unfolding number_arg print_number
other_directive o last r_fmt s c fmt xs = number_arg s c xs >>= λ n. elim n as (λ _. Run Place) [
  | some v ↦ print_number o last v.1 v.0 >>= λ o'. ok (o', fmt, v.2)
  | none ↦
      let len = length r_fmt - length fmt in
      ok (record { mem = copy o.mem o.buf (bytes r_fmt) len; buf = o.buf + len }, fmt, xs)
]

abbrev pub string_directive : Out → ℕ → Spec → List ℕ → List Arg → Run Place
string_directive o last s fmt (c_string text ∷ xs) = ok (pad o last s text, fmt, xs)
string_directive o last s fmt _ = fault

abbrev pub counted_directive : Out → ℕ → Spec → List ℕ → List Arg → Run Place
counted_directive o last s fmt (counted text ∷ xs) = ok (pad o last s text, fmt, xs)
counted_directive o last s fmt _ = fault

pub double_directive : Fpu → Out → ℕ → Spec → List ℕ → List Arg → Run Place
unfolding print_double
double_directive fpu o last s fmt (double d ∷ xs) =
    print_double fpu o last s d >>= λ o'. ok (o', fmt, xs)
double_directive fpu o last s fmt _ = fault

-- 'N' runs on into '%', which steps over one more byte of the format; behind its end nothing may be
-- read
abbrev pub newline_directive : Out → List ℕ → List Arg → Run Place
newline_directive o [] xs = fault
newline_directive o (c ∷ fmt) xs = ok (put (put o 10) b'%', fmt, xs)

-- the switch over the specifier `c`, with the format behind it
pub directive : Fpu → Out → ℕ → List ℕ → Spec → ℕ → List ℕ → List Arg → Run Place
unfolding other_directive double_directive
directive fpu o last r_fmt s c fmt xs =
    if c == b's'
    then string_directive o last s fmt xs
    else if c == b'S'
    then counted_directive o last s fmt xs
    else if c == b'c'
    then next_word xs >>= (λ r. ok (pad o last s (r.0 % 256 ∷ []), fmt, r.1))
    else if c == b'f'
    then double_directive fpu o last s fmt xs
    else if c == b'Z'
    then ok (put o 0, fmt, xs)
    else if c == b'N'
    then newline_directive o fmt xs
    else if c == b'%'
    then ok (put o b'%', fmt, xs)
    else other_directive o last r_fmt s c fmt xs

-- The specifier behind flags, width and length. The counter of the padding is an `int`: widths from
-- 2 ^ 31 on are a fault. At the terminator the default steps over it, and the
-- next read is behind the format
pub specifier : Fpu → Out → ℕ → List ℕ → Cursor → Run Place
unfolding directive
specifier fpu o last r_fmt (s, [], xs) = fault
specifier fpu o last r_fmt (s, c ∷ fmt, xs) =
    if leb (2 ^ 31) s.width then fault else directive fpu o last r_fmt s c fmt xs

-- a directive, from the byte behind '%' on
pub expand : Fpu → ℕ → Out → ℕ → List ℕ → List Arg → Run Place
unfolding flags number lengths specifier
expand fpu k o last fmt xs =
    let f = flags initial_spec fmt in
    let w = number 0 f.1 in
    lengths k (record f.0 { width = w.0 }) w.1 xs >>= specifier fpu o last (b'%' ∷ fmt)

-- `spy_vslprintf`, on fuel for its loops
unfoldable pub vslprintf : Fpu → ℕ → Out → ℕ → List ℕ → List Arg → Run Out
unfolding expand
vslprintf fpu zero o last fmt xs = out_of_fuel
vslprintf fpu (suc k) o last [] xs = ok o
vslprintf fpu (suc k) o last (c ∷ fmt) xs =
    let plain = vslprintf fpu k (put o c) last fmt xs in
    let special = expand fpu k o last fmt xs >>= (λ p. vslprintf fpu k p.0 last p.1 p.2) in
    if ltb o.buf last then (if c == b'%' then special else plain) else ok o

-- `spy_sprintf`, `spy_snprintf` and `spy_slprintf`
pub sprintf : Fpu → ℕ → Out → List ℕ → List Arg → Run Out
unfolding vslprintf
sprintf fpu k o fmt xs = vslprintf fpu k o (word - 1) fmt xs

pub snprintf : Fpu → ℕ → Out → ℕ → List ℕ → List Arg → Run Out
unfolding vslprintf
snprintf fpu k o max fmt xs = vslprintf fpu k o (o.buf + max) fmt xs

unfoldable pub slprintf : Fpu → ℕ → Out → ℕ → List ℕ → List Arg → Run Out
unfolding vslprintf
slprintf fpu k o last fmt xs = vslprintf fpu k o last fmt xs
