-- ===== src/Text.antt =====
-- core/spy_string.c: printing numbers, padding and copying strings. Memory is a function of the
-- address, and a byte is a number.
pub mod Number
pub mod Pad
pub mod Copy
mod Tests
use mysqlproxy.Base.{
  ℕ, zero, suc, ◌+◌, ◌-◌, ◌*◌, ◌/◌, ◌%◌, Bool, true, false, List, [], ◌∷◌, update, ltb, leb, ◌==◌,
  if◌then◌else◌,
}
use mysqlproxy.Base.Runs.{Run, ok, out_of_fuel}

-- the three ways in which `spy_sprintf_num` prints: decimal, and hexadecimal in two alphabets
pub data Radix : Type 0 where
  ten lower upper : Radix

abbrev pub base : Radix → ℕ
base ten = 10
base lower = 16
base upper = 16

-- `d + '0'`, or the entry `d` of `hexstr` and `HEXstr`
abbrev pub glyph : Radix → ℕ → ℕ
glyph ten d = d + 48
glyph lower d = if ltb d 10 then d + 48 else d + 87
glyph upper d = if ltb d 10 then d + 48 else d + 55

-- the loops of `spy_sprintf_num`; the list holds the bytes from `pnum` on
pub digits : Radix → ℕ → ℕ → List ℕ → Run (List ℕ)
digits r zero n acc = out_of_fuel
digits r (suc k) n acc =
    let acc' = glyph r (n % base r) ∷ acc in
    let rest = digits r k (n / base r) acc' in if n / base r == 0 then ok acc' else rest

-- SPY_INT64_LEN, the room in front of the end of `tempn`
abbrev pub int64_len : ℕ
int64_len = 20

-- `spy_sprintf_num`; the fuel is the room in the buffer
unfoldable pub sprintf_num : ℕ → ℕ → List ℕ → Run (List ℕ)
unfolding digits
sprintf_num n hex acc =
    if hex == 0
    then (if leb n 0xffffffff then digits ten int64_len n acc else digits ten int64_len n acc)
    else if hex == 1
    then digits lower int64_len n acc
    else if hex == 2
    then digits upper int64_len n acc
    else ok acc

-- `for (i = 0; i < width; i++) *buf++ = zero;`
pub fill : (ℕ → ℕ) → ℕ → ℕ → ℕ → ℕ → ℕ
fill m buf zero z = m
fill m buf (suc k) z = fill (update m buf z) (suc buf) k z

-- `spy_memcpy`, from an array that does not overlap
pub copy : (ℕ → ℕ) → ℕ → (ℕ → ℕ) → ℕ → ℕ → ℕ
copy m t p len a = if leb t a then (if ltb a (t + len) then p (a - t) else m a) else m a

-- `spy_printf_pad`: the memory and the pointer behind the result. `last - buf` wraps in C if `buf` is
-- behind `last`, and the counter of the padding, an `int`, overflows from 2 ^ 31 on: the format loop
-- excludes both. Addresses do not wrap, and where the buffer ends is the caller's affair.
unfoldable pub printf_pad : (ℕ → ℕ) → ℕ → ℕ → ℕ → ℕ → ℕ → (ℕ → ℕ) → ℕ → (ℕ → ℕ) × ℕ
unfolding fill copy
printf_pad m buf last width len z p align =
    let pad = width - len in
    let n = if ltb (last - buf) len then last - buf else len in
    let from = if align == 0 then (if ltb 0 pad then buf + n else buf) else buf in
    let to = if align == 1 then (if ltb 0 pad then buf + pad else buf) else buf in
    (copy (fill m from pad z) to p n, buf + n + pad)

-- the loop of `spy_cpystrn`, with `n` more rounds
pub copy_string : (ℕ → ℕ) → ℕ → (ℕ → ℕ) → ℕ → ℕ → (ℕ → ℕ) × ℕ
copy_string m d src s zero = (update m d 0, d)
copy_string m d src s (suc n) =
    let m' = update m d (src s) in
    let rest = copy_string m' (suc d) src (suc s) n in if src s == 0 then (m', d) else rest

-- `spy_cpystrn`: the memory and the pointer to the end
unfoldable pub cpystrn : (ℕ → ℕ) → ℕ → (ℕ → ℕ) → ℕ → (ℕ → ℕ) × ℕ
unfolding copy_string
cpystrn m d src zero = (m, d)
cpystrn m d src (suc n) = copy_string m d src 0 n
