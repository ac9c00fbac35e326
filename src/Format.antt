-- ===== src/Format.antt =====
-- core/spy_string.c, the parts of a directive of `spy_vslprintf`, and core/spy_math.c, which it calls.
-- A format is the list of the bytes in front of its terminator; a double is its bit pattern, and what
-- the processor does with two of them is a parameter.
pub mod Scan
pub mod Ahead
pub mod Numbers
use mysqlproxy.Base.{
  ℕ, zero, suc, ◌+◌, ◌-◌, ◌*◌, ◌/◌, ◌%◌, ◌^◌, Bool, true, false, ◌&&◌, ◌||◌, Option, none, some,
  List, [], ◌∷◌, ◌++◌, update, ltb, leb, ◌==◌, if◌then◌else◌,
}
use mysqlproxy.Base.Runs.{Run, ok, fault, out_of_fuel, ◌>>=◌}
use mysqlproxy.State.{word}
use mysqlproxy.Posted.Process.{length}
use mysqlproxy.Text.{copy, printf_pad, sprintf_num}

-- an argument behind the format: of an integer or pointer type, a `u_char *` to a string, a
-- `spy_str_t`, or a double
pub data Arg : Type 0 where
  integer : ℕ → Arg
  c_string : List ℕ → Arg
  counted : List ℕ → Arg
  double : ℕ → Arg

-- the variables that a directive sets; `s_int` is set and never read
pub record Spec : Type 0 where
  pub zero_char : ℕ
  pub align : ℕ
  pub width : ℕ
  pub frac_width : ℕ
  pub l_int : ℕ
  pub s_int : ℕ
  pub hex : ℕ
  pub sign : Bool

-- the memory, and `buf`
pub record Out : Type 0 where
  pub mem : ℕ → ℕ
  pub buf : ℕ

-- the processor's `frac * 10` and `calc - *intp`
pub record Fpu : Type 0 where
  pub times_ten : ℕ → ℕ
  pub minus : ℕ → ℕ → ℕ

-- what a list of bytes holds as an array
abbrev pub bytes : List ℕ → ℕ → ℕ
bytes [] i = 0
bytes (b ∷ bs) zero = b
bytes (b ∷ bs) (suc i) = bytes bs i

-- `*buf++ = c`
abbrev pub put : Out → ℕ → Out
put o c = record { mem = update o.mem o.buf c; buf = o.buf + 1 }

abbrev pub pad : Out → ℕ → Spec → List ℕ → Out
pad o last s text =
    let r = printf_pad o.mem o.buf last s.width (length text) s.zero_char (bytes text) s.align in
    record { mem = r.0; buf = r.1 }

-- `va_arg` for the types of 64 bits
abbrev pub next_word : List Arg → Run (ℕ × List Arg)
next_word (integer n ∷ xs) = ok (n % word, xs)
next_word _ = fault

-- `(int64_t) va_arg(args, int32_t)`, as a word in two's complement
abbrev pub extend32 : ℕ → ℕ
extend32 n = let low = n % 2 ^ 32 in if ltb low (2 ^ 31) then low else low + (word - 2 ^ 32)

-- where a directive begins
abbrev pub initial_spec : Spec
initial_spec = record {
  zero_char = b' ';
  align = 0;
  width = 0;
  frac_width = 0;
  l_int = 0;
  s_int = 0;
  hex = 0;
  sign = true;
}

-- one round of the loop over the flags
abbrev pub flag : Spec → ℕ → Option Spec
flag s c =
    if c == b'-'
    then some (record s { align = 1 })
    else if c == b'+'
    then some (record s { align = 0 })
    else if c == b'#'
    then some s
    else if c == b'0'
    then some (record s { zero_char = b'0' })
    else none

unfoldable pub flags : Spec → List ℕ → Spec × List ℕ
flags s [] = (s, [])
flags s (c ∷ fmt) = elim (flag s c) as (λ _. Spec × List ℕ) [
  | none ↦ (s, c ∷ fmt)
  | some s' ↦ flags s' fmt
]

-- the loop that reads a number
unfoldable pub number : ℕ → List ℕ → ℕ × List ℕ
number w [] = (w, [])
number w (c ∷ fmt) =
    let rest = number ((w * 10 + (c - b'0')) % word) fmt in
    if leb b'0' c && leb c b'9' then rest else (w, c ∷ fmt)

abbrev pub Cursor : Type 0
Cursor = Spec × List ℕ × List Arg

-- one round of the loop over width, precision and length
pub length_step : Spec → ℕ → List ℕ → List Arg → Run (Option Cursor)
unfolding number
length_step s c fmt xs =
    if c == b'*'
    then next_word xs >>= (λ r. ok (some (record s { width = r.0 }, fmt, r.1)))
    else if c == b'.'
    then (let r = number s.frac_width (c ∷ fmt) in
        ok (some (record s { frac_width = r.0 }, r.1, xs)))
    else if c == b'l'
    then ok (some (record s { l_int = s.l_int + 1 }, fmt, xs))
    else if c == b'h'
    then ok (some (record s { s_int = s.s_int + 1 }, fmt, xs))
    else if c == b'x'
    then ok (some (record s { hex = 1 }, fmt, xs))
    else if c == b'X'
    then ok (some (record s { hex = 2 }, fmt, xs))
    else ok none

unfoldable pub lengths : ℕ → Spec → List ℕ → List Arg → Run Cursor
unfolding length_step
lengths zero s fmt xs = out_of_fuel
lengths (suc k) s [] xs = ok (s, [], xs)
lengths (suc k) s (c ∷ fmt) xs = length_step s c fmt xs >>= (λ o. elim o as (λ _. Run Cursor) [
  | none ↦ ok (s, c ∷ fmt, xs)
  | some r ↦ lengths k r.0 r.1 r.2
])

-- the specifiers of integers: the value, and what the specifier changes of the directive's variables
unfoldable pub number_arg : Spec → ℕ → List Arg → Run (Option (ℕ × Spec × List Arg))
number_arg s c xs =
    let long = s.l_int == 1 || s.l_int == 2 in
    if c == b'd' || c == b'i'
    then next_word xs >>= (λ r. ok (some (if long then r.0 else extend32 r.0, s, r.1)))
    else if c == b'u'
    then next_word xs
      >>= (λ r. ok (some (if long then r.0 else r.0 % 2 ^ 32, record s { sign = false }, r.1)))
    else if c == b'p'
    then next_word xs >>= (λ r.
      ok (some (r.0, record s { hex = 2; sign = false; zero_char = b'0'; width = 16 }, r.1)))
    else if c == b'P'
    then next_word xs >>= (λ r. ok (some (extend32 r.0, record s { sign = true }, r.1)))
    else if c == b'z'
    then next_word xs >>= (λ r. ok (some (r.0, s, r.1)))
    else ok none

-- `*buf++ = '-'` in front of a negative number; C leaves the negation of the smallest one undefined
abbrev pub minus_sign : Out → Spec → ℕ → Run (Out × ℕ)
minus_sign o s v =
    if s.sign && leb (2 ^ 63) v
    then (if v == 2 ^ 63 then fault else ok (put o b'-', word - v))
    else ok (o, v)

-- behind the switch: the sign, the digits and the padding
unfoldable pub print_number : Out → ℕ → Spec → ℕ → Run Out
print_number o last s v =
    minus_sign o s v >>= λ r. sprintf_num r.1 s.hex [] >>= λ ds. ok (pad r.0 last s ds)

-- `spy_modf` on the bits of a double, behind `spy_abs`: the fraction and the integer part. The shift
-- is undefined for an exponent above 52.
pub modf : Fpu → ℕ → Run (ℕ × ℕ)
modf fpu d =
    let calc = d % 2 ^ 63 in
    let e = calc / 2 ^ 52 % 2 ^ 11 - 1023 in
    let z = calc % 2 ^ 52 + 2 ^ 52 in
    let i = z / 2 ^ (52 - e) in
    if ltb calc 0x3ff0000000000000
    then ok (calc, 0)
    else if ltb 52 e
    then fault
    else ok (fpu.minus calc i, i)

-- the loop over the digits of the fraction, with the rounds that `frac_width` leaves
pub fraction : Fpu → ℕ → ℕ → Run (List ℕ)
unfolding modf
fraction fpu zero frac = ok []
fraction fpu (suc k) frac = modf fpu (fpu.times_ten frac) >>= λ r.
    let digit = (r.1 % 256 + b'0') % 256 in
    let more = fraction fpu k r.0 >>= λ ds. ok (digit ∷ ds) in
    if r.0 % 2 ^ 63 == 0 then ok (digit ∷ []) else more

-- the case of 'f'; a double below zero has its sign bit set and is neither -0 nor a NaN
unfoldable pub print_double : Fpu → Out → ℕ → Spec → ℕ → Run Out
unfolding fraction
print_double fpu o last s d =
    let width = if s.frac_width == 0 then (if ltb 0 s.l_int then 15 else 6) else s.frac_width in
    let negative = ltb (2 ^ 63) d && leb d 0xfff0000000000000 in
    let o' = if negative then put o b'-' else o in
    modf fpu d >>= λ r. sprintf_num r.1 0 [] >>= λ ds.
    fraction fpu width r.0 >>= λ fs. ok (pad o' last s (ds ++ b'.' ∷ fs))
