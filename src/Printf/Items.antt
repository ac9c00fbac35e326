-- ===== src/Printf/Items.antt =====
-- Formats as lists of directives with their arguments, and what each directive prints.
use mysqlproxy.Base.{
  ℕ, zero, suc, ◌+◌, ◌-◌, ◌^◌, ◌≤◌, ◌<◌, ◌≡◌, ◌∙◌, refl, sym, ap, ◌⊎◌, inl, inr, false, List, [],
  ◌∷◌, ◌++◌, arith, ltb, ◌==◌, Bool-cases,
}
use mysqlproxy.State.{word}
use mysqlproxy.Posted.Process.{length}
use mysqlproxy.Text.{ten}
use mysqlproxy.Text.Number.{read, AreDigits}
use mysqlproxy.Format.{Arg, integer, c_string, counted, Out, bytes, put}

-- a part of a format, with its argument
pub data Item : Type 0 where
  plain : ℕ → Item
  text : List ℕ → Item
  slice : List ℕ → Item
  char : ℕ → Item
  unsigned : ℕ → Item
  int : ℕ → Item

-- the items as a format in front of another
abbrev pub format : List Item → List ℕ
format [] = []
format (plain c ∷ is) = c ∷ format is
format (text bs ∷ is) = b'%' ∷ b's' ∷ format is
format (slice bs ∷ is) = b'%' ∷ b'S' ∷ format is
format (char c ∷ is) = b'%' ∷ b'c' ∷ format is
format (unsigned n ∷ is) = b'%' ∷ b'l' ∷ b'u' ∷ format is
format (int n ∷ is) = b'%' ∷ b'd' ∷ format is

abbrev pub arguments : List Item → List Arg
arguments [] = []
arguments (plain c ∷ is) = arguments is
arguments (text bs ∷ is) = c_string bs ∷ arguments is
arguments (slice bs ∷ is) = counted bs ∷ arguments is
arguments (char c ∷ is) = integer c ∷ arguments is
arguments (unsigned n ∷ is) = integer n ∷ arguments is
arguments (int n ∷ is) = integer n ∷ arguments is

abbrev pub IsItem : Item → Type 0
IsItem (plain c) = (c == b'%') ≡ false
IsItem (text bs) = Unit
IsItem (slice bs) = Unit
IsItem (char c) = c < 256
IsItem (unsigned n) = n < word
IsItem (int n) = n < 2 ^ 32

abbrev pub AreItems : List Item → Type 0
AreItems [] = Unit
AreItems (i ∷ is) = IsItem i × AreItems is

-- the room that an item needs at most
abbrev pub room : List Item → ℕ
room [] = 0
room (text bs ∷ is) = length bs + room is
room (slice bs ∷ is) = length bs + room is
room (plain c ∷ is) = 1 + room is
room (char c ∷ is) = 1 + room is
room (unsigned n ∷ is) = 20 + room is
room (int n ∷ is) = 21 + room is

-- a decimal numeral for `n`, of at most twenty digits
abbrev pub Decimal : ℕ → List ℕ → Type 0
Decimal n ds = (read ten 0 ds ≡ n) × (0 < length ds) × (length ds ≤ 20) × AreDigits ten ds

-- what an item prints; an `int` is in two's complement
abbrev pub Prints : Item → List ℕ → Type 0
Prints (plain c) t = t ≡ c ∷ []
Prints (text bs) t = t ≡ bs
Prints (slice bs) t = t ≡ bs
Prints (char c) t = t ≡ c ∷ []
Prints (unsigned n) t = Decimal n t
Prints (int n) t =
    ((n < 2 ^ 31) × Decimal n t)
    ⊎ ((2 ^ 31 ≤ n) × ((ds : List ℕ) × (t ≡ b'-' ∷ ds) × Decimal (2 ^ 32 - n) ds))

pub data Rendered : List Item → List ℕ → Type 0 where
  rendered_nil : Rendered [] []
  rendered_cons :
      {i : Item} {is : List Item} (t ts : List ℕ)
      → Prints i t
      → Rendered is ts
      → Rendered (i ∷ is) (t ++ ts)

-- `t` stands at `buf`, `buf` has moved behind it, and nothing in front of it is written
pub record Wrote (o : Out) (t : List ℕ) (o' : Out) : Type 0 where
  pub moved : o'.buf ≡ o.buf + length t
  pub there : (j : ℕ) → j < length t → o'.mem (o.buf + j) ≡ bytes t j
  pub kept : (a : ℕ) → a < o.buf → o'.mem a ≡ o.mem a

pub Wrote-nil : (o : Out) → Wrote o [] o
Wrote-nil o = record {
  moved = omega arith;
  there = λ j p. absurd (omega arith);
  kept = λ a p. refl;
}

length-append : (xs ys : List ℕ) → length (xs ++ ys) ≡ length xs + length ys
length-append [] ys = omega arith
length-append (x ∷ xs) ys = omega (arith, length-append xs ys)

bytes-append_left : (xs ys : List ℕ) (j : ℕ) → j < length xs → bytes (xs ++ ys) j ≡ bytes xs j
bytes-append_left [] ys j p = absurd (omega arith)
bytes-append_left (x ∷ xs) ys zero p = refl
bytes-append_left (x ∷ xs) ys (suc j) p = bytes-append_left xs ys j (omega arith)

bytes-append_right : (xs ys : List ℕ) (j : ℕ) → bytes (xs ++ ys) (length xs + j) ≡ bytes ys j
bytes-append_right [] ys j = ap (bytes ys) (omega arith)
bytes-append_right (x ∷ xs) ys j =
    let next : suc (length xs) + j ≡ suc (length xs + j) = omega arith in
    ap (bytes (x ∷ xs ++ ys)) next ∙ bytes-append_right xs ys j

pub Wrote-append : {o p q : Out} {t u : List ℕ} → Wrote o t p → Wrote p u q → Wrote o (t ++ u) q
Wrote-append {o} {p} {q} {t} {u} w v = record {
  moved = omega (arith, w.moved, v.moved, length-append t u);
  there = λ j h. elim (Bool-cases (ltb j (length t))) [
    | inl r ↦
        v.kept (o.buf + j) (ground (arith, w.moved))
        ∙ w.there j (ground arith)
        ∙ sym (bytes-append_left t u j (ground arith))
    | inr r ↦
        let behind : length t ≤ j = ground arith in
        let at : o.buf + j ≡ p.buf + (j - length t) = omega (arith, w.moved) in
        let same : length t + (j - length t) ≡ j = omega arith in
        ap q.mem at
        ∙ v.there (j - length t) (omega (arith, length-append t u))
        ∙ sym (bytes-append_right t u (j - length t))
        ∙ ap (bytes (t ++ u)) same
  ];
  kept = λ a h. v.kept a (omega (arith, w.moved)) ∙ w.kept a h;
}

pub put-Wrote : (o : Out) (c : ℕ) → Wrote o (c ∷ []) (put o c)
put-Wrote o c = record {
  moved = omega arith;
  there = λ j p. let at : j ≡ 0 = omega arith in rw at (ground arith);
  kept = λ a p. ground arith;
}
