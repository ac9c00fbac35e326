-- ===== src/Text/Number.antt =====
-- `spy_sprintf_num` prints a number that can be read back.
use mysqlproxy.Base.{
  ◌⊎◌, inr, inl, ℕ, zero, suc, ◌+◌, ◌-◌, ◌*◌, ◌/◌, ◌%◌, ◌≤◌, ◌<◌, ◌≡◌, ◌∙◌, sym, refl, ap, true,
  false, List, [], ◌∷◌, ◌++◌, arith, ltb, leb, ◌==◌, if◌then◌else◌, Bool-cases,
}
use mysqlproxy.Base.Runs.{Returns, returns, Returns-weaken, Returns-branch}
use mysqlproxy.State.{word}
use mysqlproxy.Posted.Process.{length}
use mysqlproxy.Text.{Radix, ten, lower, upper, base, glyph, digits, sprintf_num}

-- the digit that a byte stands for
abbrev pub digit : ℕ → ℕ
digit b = if ltb b 58 then b - 48 else if ltb b 71 then b - 55 else b - 87

-- the digits of decimal numerals, and of the two hexadecimal alphabets
abbrev pub IsDigit : Radix → ℕ → Type 0
IsDigit ten b = (48 ≤ b) × (b ≤ 57)
IsDigit lower b = ((48 ≤ b) × (b ≤ 57)) ⊎ ((97 ≤ b) × (b ≤ 102))
IsDigit upper b = ((48 ≤ b) × (b ≤ 57)) ⊎ ((65 ≤ b) × (b ≤ 70))

abbrev pub AreDigits : Radix → List ℕ → Type 0
AreDigits r [] = Unit
AreDigits r (b ∷ bs) = IsDigit r b × AreDigits r bs

AreDigits-snoc :
    (r : Radix) (b : ℕ) (bs : List ℕ) → AreDigits r bs → IsDigit r b → AreDigits r (bs ++ b ∷ [])
AreDigits-snoc r b [] h d = (d, tt)
AreDigits-snoc r b (x ∷ bs) h d = (h.0, AreDigits-snoc r b bs h.1 d)

glyph-IsDigit : (r : Radix) (n : ℕ) → IsDigit r (glyph r (n % base r))
glyph-IsDigit ten n = (omega arith, omega arith)
glyph-IsDigit lower n = ground arith
glyph-IsDigit upper n = ground arith

-- the number that the bytes print, behind `v`
abbrev pub read : Radix → ℕ → List ℕ → ℕ
read r v [] = v
read r v (b ∷ bs) = read r (v * base r + digit b) bs

read-snoc :
    (r : Radix) (v b : ℕ) (bs : List ℕ) → read r v (bs ++ b ∷ []) ≡ read r v bs * base r + digit b
read-snoc r v b [] = refl
read-snoc r v b (x ∷ bs) = read-snoc r (v * base r + digit x) b bs

snoc-append : (b : ℕ) (bs cs : List ℕ) → (bs ++ b ∷ []) ++ cs ≡ bs ++ b ∷ cs
snoc-append b [] cs = refl
snoc-append b (x ∷ bs) cs = ap (λ (l : List ℕ). x ∷ l) (snoc-append b bs cs)

length-snoc : (b : ℕ) (bs : List ℕ) → length (bs ++ b ∷ []) ≡ suc (length bs)
length-snoc b [] = refl
length-snoc b (x ∷ bs) = ap suc (length-snoc b bs)

digit-glyph : (r : Radix) (n : ℕ) → digit (glyph r (n % base r)) ≡ n % base r
digit-glyph ten n = ground arith
digit-glyph lower n = ground arith
digit-glyph upper n = ground arith

recompose : (r : Radix) (n : ℕ) → n / base r * base r + n % base r ≡ n
recompose ten n = omega arith
recompose lower n = omega arith
recompose upper n = omega arith

-- how many numbers have `k` digits or fewer
abbrev limit : Radix → ℕ → ℕ
limit r zero = 1
limit r (suc k) = base r * limit r k

below-limit : (r : Radix) (n k : ℕ) → n < limit r (suc k) → n / base r < limit r k
below-limit ten n k p = omega arith
below-limit lower n k p = omega arith
below-limit upper n k p = omega arith

next_digit : (r : Radix) (n q : ℕ) → q ≡ n / base r → q * base r + digit (glyph r (n % base r)) ≡ n
next_digit r n q t =
    ap (λ d. q * base r + d) (digit-glyph r n)
    ∙ ap (λ q'. q' * base r + n % base r) t
    ∙ recompose r n

last_digit : (r : Radix) (n : ℕ) → n / base r ≡ 0 → 0 * base r + digit (glyph r (n % base r)) ≡ n
last_digit r n t = next_digit r n 0 (sym t)

more_digits : (r : Radix) (n k : ℕ) → n / base r < limit r k → (n / base r == 0) ≡ false → 0 < k
more_digits r n zero p q = ground arith
more_digits r n (suc k) p q = omega arith

-- what printing `n` in front of `acc` with `k` digits or fewer gives
abbrev pub Printed : Radix → ℕ → ℕ → List ℕ → List ℕ → Type 0
Printed r n k acc out =
    (bs : List ℕ) × (out ≡ bs ++ acc)
    × (read r 0 bs ≡ n)
    × (0 < length bs)
    × (length bs ≤ k)
    × AreDigits r bs

digits-Printed :
    (r : Radix) (k n : ℕ) (acc : List ℕ)
    → n < limit r k
    → 0 < k
    → Returns (Printed r n k acc) (digits r k n acc)
unfolding digits
digits-Printed r zero n acc p q = absurd (omega arith)
digits-Printed r (suc k) n acc p q =
    Returns-branch (n / base r == 0)
      (λ done. returns (
        glyph r (n % base r) ∷ [],
        refl,
        last_digit r n (ground arith),
        omega arith,
        omega arith,
        (glyph-IsDigit r n, tt),
      ))
      (λ more.
        Returns-weaken
          (digits-Printed r k (n / base r) (glyph r (n % base r) ∷ acc) (below-limit r n k p)
            (more_digits r n k (below-limit r n k p) more))
          (λ out h.
            let (bs, t, t', p', q', d) = h in
            (
              bs ++ glyph r (n % base r) ∷ [],
              t ∙ sym (snoc-append (glyph r (n % base r)) bs acc),
              read-snoc r 0 (glyph r (n % base r)) bs
                  ∙ ap (λ q. q * base r + digit (glyph r (n % base r))) t'
                  ∙ next_digit r n (n / base r) refl,
              omega (arith, length-snoc (glyph r (n % base r)) bs),
              omega (arith, length-snoc (glyph r (n % base r)) bs),
              AreDigits-snoc r (glyph r (n % base r)) bs d (glyph-IsDigit r n),
            )))

abbrev pub radix_of : ℕ → Radix
radix_of hex = if hex == 0 then ten else if hex == 1 then lower else upper

-- `spy_sprintf_num` puts in front of `pnum`, in decimal or in one of the two hexadecimal alphabets, at
-- least one digit of that alphabet and at most the twenty that `tempn` has room for, and they read as the number that
-- was given, which has at most 64 bits.
pub sprintf_num-Printed :
    (n hex : ℕ) (acc : List ℕ)
    → n < word
    → hex ≤ 2
    → Returns (Printed (radix_of hex) n 20 acc) (sprintf_num n hex acc)
unfolding sprintf_num
sprintf_num-Printed n hex acc small kind = elim (Bool-cases (hex == 0)) [
  | inl t ↦
      let printed = digits-Printed ten 20 n acc (omega arith) (omega arith) in
      rw (radix_of, t) (Returns-branch (leb n 0xffffffff) (λ _. printed) (λ _. printed))
  | inr t ↦ elim (Bool-cases (hex == 1)) [
    | inl t' ↦ rw (radix_of, t, t') (digits-Printed lower 20 n acc (omega arith) (omega arith))
    | inr t' ↦
        let two : (hex == 2) ≡ true = ground arith in
        rw (radix_of, t, t', two) (digits-Printed upper 20 n acc (omega arith) (omega arith))
  ]
]
