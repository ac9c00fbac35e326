-- ===== src/Printf/Render.antt =====
-- What the format loop prints of formats without widths, against a description of each directive.
use mysqlproxy.Base.{
  ℕ, zero, suc, ◌+◌, ◌-◌, ◌%◌, ◌^◌, ◌≤◌, ◌<◌, ◌≡◌, ◌∙◌, refl, ap, inl, inr, true, false, List, [],
  ◌∷◌, ◌++◌, arith, ltb, leb, ◌==◌, if◌then◌else◌, Bool-cases,
}
use mathlib.Core.List.{append-nil}
use mysqlproxy.Base.Runs.{Run, ok, ◌>>=◌, Returns, returns, Returns-then, Returns-weaken}
use mysqlproxy.State.{word}
use mysqlproxy.Posted.Process.{length}
use mysqlproxy.Text.{sprintf_num}
use mysqlproxy.Text.Pad.{printf_pad-Padded}
use mysqlproxy.Text.Number.{sprintf_num-Printed}
use mysqlproxy.Format.{
  integer, c_string, counted, Spec, Out, Fpu, bytes, put, pad, extend32, initial_spec, print_number,
}
use mysqlproxy.Printf.{Place, expand, vslprintf}
use mysqlproxy.Printf.Items.{
  Item, plain, text, slice, char, unsigned, int, format, arguments, AreItems, room, Decimal, Prints,
  Rendered, rendered_nil, rendered_cons, Wrote, Wrote-nil, Wrote-append, put-Wrote,
}

-- without a width, `spy_printf_pad` writes the text alone
pad-Wrote :
    (o : Out) (last : ℕ) (s : Spec) (t : List ℕ)
    → o.buf + length t ≤ last
    → Wrote o t (pad o last (record s { width = 0; align = 0 }) t)
pad-Wrote o last s t p =
    let (w, _) = printf_pad-Padded o.mem o.buf last 0 (length t) s.zero_char (bytes t) p in
    record {
      moved = omega (arith, w.behind);
      there = w.text_bytes;
      kept = λ a h. w.outside a (inl h);
    }

-- the room of one item
abbrev room_of : Item → ℕ
room_of i = room (i ∷ [])

-- what the directive of an item leaves, in front of further items
abbrev Emitted : Out → Item → List Item → Place → Type 0
Emitted o i is p =
    (t : List ℕ) × Prints i t
    × (length t ≤ room_of i)
    × Wrote o t p.0
    × (p.1 ≡ format is)
    × (p.2 ≡ arguments is)

module _ (fpu : Fpu) (k : ℕ) (o : Out) (last : ℕ) (is : List Item) where
  text-Emitted :
      (bs : List ℕ)
      → o.buf + length bs < last
      → Returns
          (Emitted o (text bs) is)
          (expand fpu (suc k) o last (b's' ∷ format is) (c_string bs ∷ arguments is))
  unfolding expand
  text-Emitted bs p =
      returns (bs, refl, omega arith, pad-Wrote o last initial_spec bs (omega arith), refl, refl)

  slice-Emitted :
      (bs : List ℕ)
      → o.buf + length bs < last
      → Returns
          (Emitted o (slice bs) is)
          (expand fpu (suc k) o last (b'S' ∷ format is) (counted bs ∷ arguments is))
  unfolding expand
  slice-Emitted bs p =
      returns (bs, refl, omega arith, pad-Wrote o last initial_spec bs (omega arith), refl, refl)

  char-Emitted :
      (c : ℕ)
      → c < 256
      → o.buf + 1 < last
      → Returns
          (Emitted o (char c) is)
          (expand fpu (suc k) o last (b'c' ∷ format is) (integer c ∷ arguments is))
  unfolding expand
  char-Emitted c h p =
      let same : c % word % 256 ≡ c = omega arith in
      returns (
        c % word % 256 ∷ [],
        ap (λ d. d ∷ []) same,
        omega arith,
        pad-Wrote o last initial_spec (c % word % 256 ∷ []) (omega arith),
        refl,
        refl,
      )

  -- the digits of a number behind its sign
  numeral-Wrote :
      (o' : Out) (s : Spec) (n : ℕ)
      → n < word
      → o'.buf + 20 < last
      → Returns
          (λ q. (ds : List ℕ) × Decimal n ds × Wrote o' ds q)
          (sprintf_num n 0 [] >>= λ ds. ok (pad o' last (record s { width = 0; align = 0 }) ds))
  numeral-Wrote o' s n h p = Returns-then (sprintf_num-Printed n 0 [] h (omega arith)) λ out z.
      let (bs, e, r, q, q', d) = z in
      let same : out ≡ bs = e ∙ append-nil bs in
      rw same (returns (bs, (r, q, q', d), pad-Wrote o' last s bs (omega (arith, q'))))

  unsigned-Emitted :
      (n : ℕ)
      → n < word
      → o.buf + 20 < last
      → Returns
          (Emitted o (unsigned n) is)
          (expand fpu (suc (suc k)) o last (b'l' ∷ b'u' ∷ format is) (integer n ∷ arguments is))
  unfolding expand
  unsigned-Emitted n h p =
      let same : n % word ≡ n = omega arith in
      rw same (
        Returns-then
          (Returns-weaken (numeral-Wrote o (record initial_spec { sign = false }) n h p)
            λ q z. let (ds, d, w) = z in (ds, d, omega (arith, d.2), w, refl, refl))
          λ q z. returns z)

  int-Emitted :
      (n : ℕ)
      → n < 2 ^ 32
      → o.buf + 21 < last
      → Returns
          (Emitted o (int n) is)
          (expand fpu (suc k) o last (b'd' ∷ format is) (integer n ∷ arguments is))
  unfolding expand print_number
  int-Emitted n h p = elim (Bool-cases (ltb n (2 ^ 31))) [
    | inl t ↦
        let value : extend32 (n % word) ≡ n = ground arith in
        let plus : leb (2 ^ 63) n ≡ false = ground arith in
        rw (value, plus)
          (Returns-then
            (Returns-weaken (numeral-Wrote o initial_spec n (omega arith) (omega arith)) λ q z.
              let (ds, d, w) = z in (ds, inl (ground arith, d), omega (arith, d.2), w, refl, refl))
            λ q z. returns z)
    | inr t ↦
        let value : extend32 (n % word) ≡ n + (word - 2 ^ 32) = ground arith in
        let minus : leb (2 ^ 63) (n + (word - 2 ^ 32)) ≡ true = ground arith in
        let some_negation : (n + (word - 2 ^ 32) == 2 ^ 63) ≡ false = ground arith in
        let size : word - (n + (word - 2 ^ 32)) ≡ 2 ^ 32 - n = omega arith in
        rw (value, minus, some_negation, size)
          (Returns-then
            (Returns-weaken
              (numeral-Wrote (put o b'-') initial_spec (2 ^ 32 - n) (omega arith) (omega arith))
              λ q z.
                let (ds, d, w) = z in
                (
                  b'-' ∷ ds,
                  inr (ground arith, (ds, refl, d)),
                  omega (arith, d.2),
                  Wrote-append (put-Wrote o b'-') w,
                  refl,
                  refl,
                ))
            λ q z. returns z)
  ]

room-cons : (i : Item) (is : List Item) → room (i ∷ is) ≡ room_of i + room is
room-cons (plain c) is = omega arith
room-cons (text bs) is = omega arith
room-cons (slice bs) is = omega arith
room-cons (char c) is = omega arith
room-cons (unsigned n) is = omega arith
room-cons (int n) is = omega arith

-- what printing a list of items leaves
abbrev pub Printout : Out → List Item → Out → Type 0
Printout o is o' = (t : List ℕ) × Rendered is t × Wrote o t o'

module _ (fpu : Fpu) (k : ℕ) (o : Out) (last : ℕ) (i : Item) (is : List Item) where
  -- a directive, and then the rest of the format
  one_more :
      (behind : (p : Out)
        → p.buf + room is < last
        → Returns (Printout p is) (vslprintf fpu k p last (format is) (arguments is)))
      → o.buf + room (i ∷ is) < last
      → {m : Run Place} → Returns (Emitted o i is) m
      → Returns
          (Printout o (i ∷ is))
          (if ltb o.buf last then (m >>= λ p. vslprintf fpu k p.0 last p.1 p.2) else ok o)
  one_more behind fits h =
      let go : ltb o.buf last ≡ true = ground arith in
      rw go (
        Returns-then h λ p e.
          let (t, d, l, w, f, a) = e in
          rw (f, a)
            (Returns-weaken (behind p.0 (omega (arith, w.moved, l, fits, room-cons i is)))
              λ q r. let (ts, rs, v) = r in (t ++ ts, rendered_cons t ts d rs, Wrote-append w v)))

-- A format of bytes other than '%' and of directives %s, %S, %c, %lu and %d, with the arguments that
-- they ask for and room for the text behind `buf` and one byte more, is printed in full and without an
-- undefined access: the text of each item, one behind the other, from `buf` on, the pointer behind it
-- is returned, and nothing in front of `buf` is written. A %lu gives a decimal numeral that reads back
-- as its argument, a %d one with a minus sign for the arguments that are negative.
pub vslprintf-Printout :
    (fpu : Fpu) (k : ℕ) (o : Out) (last : ℕ) (is : List Item)
    → AreItems is
    → length (format is) < k
    → o.buf + room is < last
    → Returns (Printout o is) (vslprintf fpu k o last (format is) (arguments is))
unfolding vslprintf
vslprintf-Printout fpu zero o last is v p q = absurd (omega arith)
vslprintf-Printout fpu (suc k) o last [] v p q = returns ([], rendered_nil, Wrote-nil o)
vslprintf-Printout fpu (suc k) o last (plain c ∷ is) v p q = rw v.0 (
    one_more fpu k o last (plain c) is
      (λ o' h. vslprintf-Printout fpu k o' last is v.1 (omega arith) h) q
      (returns {a = (put o c, format is, arguments is)}
        (c ∷ [], refl, omega arith, put-Wrote o c, refl, refl)))
vslprintf-Printout fpu (suc (suc k)) o last (text bs ∷ is) v p q =
    one_more fpu (suc k) o last (text bs) is
      (λ o' h. vslprintf-Printout fpu (suc k) o' last is v.1 (omega arith) h) q
      (text-Emitted fpu k o last is bs (omega arith))
vslprintf-Printout fpu (suc (suc k)) o last (slice bs ∷ is) v p q =
    one_more fpu (suc k) o last (slice bs) is
      (λ o' h. vslprintf-Printout fpu (suc k) o' last is v.1 (omega arith) h) q
      (slice-Emitted fpu k o last is bs (omega arith))
vslprintf-Printout fpu (suc (suc k)) o last (char c ∷ is) v p q =
    one_more fpu (suc k) o last (char c) is
      (λ o' h. vslprintf-Printout fpu (suc k) o' last is v.1 (omega arith) h) q
      (char-Emitted fpu k o last is c v.0 (omega arith))
vslprintf-Printout fpu (suc (suc (suc k))) o last (unsigned n ∷ is) v p q =
    one_more fpu (suc (suc k)) o last (unsigned n) is
      (λ o' h. vslprintf-Printout fpu (suc (suc k)) o' last is v.1 (omega arith) h) q
      (unsigned-Emitted fpu k o last is n v.0 (omega arith))
vslprintf-Printout fpu (suc (suc k)) o last (int n ∷ is) v p q =
    one_more fpu (suc k) o last (int n) is
      (λ o' h. vslprintf-Printout fpu (suc k) o' last is v.1 (omega arith) h) q
      (int-Emitted fpu k o last is n v.0 (omega arith))
vslprintf-Printout fpu (suc zero) o last (i ∷ is) v p q = absurd (omega arith)
vslprintf-Printout fpu (suc (suc zero)) o last (unsigned n ∷ is) v p q = absurd (omega arith)
