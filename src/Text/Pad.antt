-- ===== src/Text/Pad.antt =====
-- `spy_printf_pad`: where the text and the padding go.
use mysqlproxy.Base.{
  subst, sym, inl, inr, ◌⊎◌, ◌⊎◌, ℕ, zero, suc, ◌+◌, ◌-◌, ◌≤◌, ◌<◌, ◌≡◌, ◌∙◌, refl, false, arith,
  if◌then◌else◌, update, ltb, leb, Bool-cases, ◌==◌, ◌&&◌,
}
use mysqlproxy.Text.{fill, copy, printf_pad}

fill-at :
    (k b z : ℕ) (m : ℕ → ℕ) (a : ℕ) → fill m b k z a ≡ (if leb b a && ltb a (b + k) then z else m a)
unfolding fill
fill-at zero b z m a = ground arith
fill-at (suc k) b z m a = fill-at k (suc b) z (update m b z) a ∙ ground arith

pub copy-before : (m : ℕ → ℕ) (t : ℕ) (p : ℕ → ℕ) (len a : ℕ) → a < t → copy m t p len a ≡ m a
unfolding copy
copy-before m t p len a h = ground arith

pub copy-inside :
    (m : ℕ → ℕ) (t : ℕ) (p : ℕ → ℕ) (len j : ℕ) → j < len → copy m t p len (t + j) ≡ p j
unfolding copy
copy-inside m t p len j h = let same : t + j - t ≡ j = omega arith in ground (arith, same)

fill-before : (m : ℕ → ℕ) (b k z a : ℕ) → a < b → fill m b k z a ≡ m a
fill-before m b k z a h = fill-at k b z m a ∙ ground arith

-- whatever the width and the length are, nothing in front of `buf` is written
pub printf_pad-before :
    (m : ℕ → ℕ) (buf last width len z : ℕ) (p : ℕ → ℕ) (align : ℕ)
    → (buf ≤ (printf_pad m buf last width len z p align).1)
      × ((a : ℕ) → a < buf → (printf_pad m buf last width len z p align).0 a ≡ m a)
unfolding printf_pad
printf_pad-before m buf last width len z p align =
    let pad = width - len in
    let n = if ltb (last - buf) len then last - buf else len in
    let from = if align == 0 then (if ltb 0 pad then buf + n else buf) else buf in
    let to = if align == 1 then (if ltb 0 pad then buf + pad else buf) else buf in
    (
      omega arith,
      λ a h.
          copy-before (fill m from pad z) to p n a (ground arith)
          ∙ fill-before m from pad z a (ground arith),
    )

-- what `spy_printf_pad` leaves: the text `p` at `text`, the padding `z` at `gap`, each of its length
pub record Padded (m : ℕ → ℕ) (buf : ℕ) (p : ℕ → ℕ) (z text len gap pad : ℕ) (r : (ℕ → ℕ) × ℕ)
    : Type 0 where
  pub behind : r.1 ≡ buf + len + pad
  pub text_bytes : (j : ℕ) → j < len → r.0 (text + j) ≡ p j
  pub gap_bytes : (j : ℕ) → j < pad → r.0 (gap + j) ≡ z
  pub outside : (a : ℕ) → (a < buf) ⊎ (buf + len + pad ≤ a) → r.0 a ≡ m a

module _ (m : ℕ → ℕ) (buf z : ℕ) (p : ℕ → ℕ) (text len gap pad : ℕ)
    (apart : ((text ≡ buf) × (gap ≡ buf + len)) ⊎ ((gap ≡ buf) × (text ≡ buf + pad))) where
  abbrev result : ℕ → ℕ
  result = copy (fill m gap pad z) text p len

  text_at : (j : ℕ) → j < len → result (text + j) ≡ p j
  unfolding copy
  text_at j t = copy-inside (fill m gap pad z) text p len j t

  gap_at : (j : ℕ) → j < pad → result (gap + j) ≡ z
  unfolding copy
  gap_at j t = ground (arith, fill-at pad gap z m (gap + j))

  outside_at : (a : ℕ) → (a < buf) ⊎ (buf + len + pad ≤ a) → result a ≡ m a
  unfolding copy
  outside_at a t = ground (arith, fill-at pad gap z m a)

  result-Padded : Padded m buf p z text len gap pad (result, buf + len + pad)
  result-Padded = record {
    behind = refl;
    text_bytes = text_at;
    gap_bytes = gap_at;
    outside = outside_at;
  }

module _ (m : ℕ → ℕ) (buf last width len z : ℕ) (p : ℕ → ℕ) (fits : buf + len ≤ last) where
  whole : ltb (last - buf) len ≡ false
  whole = ground arith

  text_first :
      printf_pad m buf last width len z p 0
      ≡ (copy (fill m (buf + len) (width - len) z) buf p len, buf + len + (width - len))
  unfolding printf_pad fill
  text_first = elim (Bool-cases (ltb 0 (width - len))) [
    | inl t ↦ rw (whole, t) refl
    | inr t ↦ let none_left : width - len ≡ 0 = ground arith in rw (whole, none_left) refl
  ]

  gap_first :
      printf_pad m buf last width len z p 1
      ≡ (copy (fill m buf (width - len) z) (buf + (width - len)) p len, buf + len + (width - len))
  unfolding printf_pad fill
  gap_first = elim (Bool-cases (ltb 0 (width - len))) [
    | inl t ↦ rw (whole, t) refl
    | inr t ↦
        let none_left : width - len ≡ 0 = ground arith in
        let here : buf + 0 ≡ buf = omega arith in rw (whole, none_left, here) refl
  ]

-- If the text fits in front of `last`, `spy_printf_pad` writes it behind the padding where `align` is 1
-- and in front of it where `align` is 0, pads it to the width, gives the pointer behind both and
-- writes nowhere else. The padding is not held against `last`.
pub printf_pad-Padded :
    (m : ℕ → ℕ) (buf last width len z : ℕ) (p : ℕ → ℕ)
    → buf + len ≤ last
    → Padded m buf p z buf len (buf + len) (width - len) (printf_pad m buf last width len z p 0)
      × Padded m buf p z
          (buf + (width - len))
          len
          buf
          (width - len)
          (printf_pad m buf last width len z p 1)
printf_pad-Padded m buf last width len z p fits = (
  subst (Padded m buf p z buf len (buf + len) (width - len))
      (sym (text_first m buf last width len z p fits))
      (result-Padded m buf z p buf len (buf + len) (width - len) (inl (refl, refl))),
  subst (Padded m buf p z (buf + (width - len)) len buf (width - len))
      (sym (gap_first m buf last width len z p fits))
      (result-Padded m buf z p (buf + (width - len)) len buf (width - len) (inr (refl, refl))),
)

-- So a width beyond `last` is written beyond `last`: where `align` is 0, the byte at `last` is padding
-- although the text fits.
pub printf_pad-overrun :
    (m : ℕ → ℕ) (buf last width len z : ℕ) (p : ℕ → ℕ)
    → buf + len ≤ last
    → last < buf + width
    → (printf_pad m buf last width len z p 0).0 last ≡ z
printf_pad-overrun m buf last width len z p fits wide =
    let at : buf + len + (last - (buf + len)) ≡ last = omega arith in
    subst (λ a. (printf_pad m buf last width len z p 0).0 a ≡ z) at
      ((printf_pad-Padded m buf last width len z p fits).0.gap_bytes (last - (buf + len))
        (omega arith))
