-- ===== src/Text/Copy.antt =====
-- `spy_cpystrn` copies a string, with its end.
use mysqlproxy.Base.{
  ℕ, zero, suc, ◌+◌, ◌-◌, ◌≤◌, ◌<◌, ◌≡◌, ◌≢◌, ◌⊎◌, inl, inr, ◌∙◌, refl, ap, arith, ◌==◌, update,
  Bool-cases,
}
use mysqlproxy.Text.{copy_string, cpystrn}

-- the string from `src s` on has been copied to `d`, cut off behind `n` bytes
pub record Copied (m : ℕ → ℕ) (d : ℕ) (src : ℕ → ℕ) (s n : ℕ) (r : (ℕ → ℕ) × ℕ) : Type 0 where
  pub from : d ≤ r.1
  pub to : r.1 ≤ d + n
  pub end : r.0 r.1 ≡ 0
  pub bytes : (j : ℕ) → d + j < r.1 → (r.0 (d + j) ≡ src (s + j)) × (src (s + j) ≢ 0)
  pub whole : (src (s + (r.1 - d)) ≡ 0) ⊎ (r.1 ≡ d + n)
  pub outside : (a : ℕ) → (a < d) ⊎ (d + n < a) → r.0 a ≡ m a

at_start : (s d : ℕ) → s + (d - d) ≡ s
at_start s d = omega arith

shift : (s e d : ℕ) → suc d ≤ e → s + (e - d) ≡ suc s + (e - suc d)
shift s e d p = omega arith

copy_string-Copied :
    (n : ℕ) (m : ℕ → ℕ) (d : ℕ) (src : ℕ → ℕ) (s : ℕ) → Copied m d src s n (copy_string m d src s n)
unfolding copy_string
copy_string-Copied zero m d src s = record {
  from = omega arith;
  to = omega arith;
  end = ground arith;
  bytes = λ j p. absurd (omega arith);
  whole = inr (omega arith);
  outside = λ a p. ground arith;
}
copy_string-Copied (suc n) m d src s = elim (Bool-cases (src s == 0)) [
  | inl t ↦ rw t (record {
    from = omega arith;
    to = omega arith;
    end = ground arith;
    bytes = λ j p. absurd (omega arith);
    whole = inl (ap src (at_start s d) ∙ ground arith);
    outside = λ a p. ground arith;
  })
  | inr t ↦
      rw t (behind (copy_string-Copied n (update m d (src s)) (suc d) src (suc s)) (ground arith))
]
  where
    first :
        {r : (ℕ → ℕ) × ℕ}
        → Copied (update m d (src s)) (suc d) src (suc s) n r
        → src s ≢ 0
        → (r.0 (d + 0) ≡ src (s + 0)) × (src (s + 0) ≢ 0)
    first {r} h ne =
        let here : d + 0 ≡ d = omega arith in
        let there : s + 0 ≡ s = omega arith in
        rw (here, there) (h.outside d (inl (omega arith)) ∙ ground arith, ne)

    later :
        {r : (ℕ → ℕ) × ℕ}
        → Copied (update m d (src s)) (suc d) src (suc s) n r
        → (j : ℕ) → d + suc j < r.1
        → (r.0 (d + suc j) ≡ src (s + suc j)) × (src (s + suc j) ≢ 0)
    later {r} h j p =
        let here : d + suc j ≡ suc d + j = omega arith in
        let there : s + suc j ≡ suc s + j = omega arith in
        rw (here, there) (h.bytes j (omega arith))

    behind :
        {r : (ℕ → ℕ) × ℕ}
        → Copied (update m d (src s)) (suc d) src (suc s) n r
        → src s ≢ 0
        → Copied m d src s (suc n) r
    behind {r} h ne = record {
      from = omega (arith, h.from);
      to = omega (arith, h.to);
      end = h.end;
      bytes = elim [ zero ↦ λ p. first h ne | suc j ↦ λ p. later h j p ];
      whole = elim h.whole [
        | inl t ↦ inl (ap src (shift s r.1 d h.from) ∙ t)
        | inr t ↦ inr (omega arith)
      ];
      outside = λ a p. ground (arith, h.outside a);
    }

-- With room for `n` bytes `spy_cpystrn` copies at most `n - 1` of them, up to the end of the string,
-- puts a zero behind them, gives the pointer to it, and writes nowhere else. Without room it does
-- nothing.
pub cpystrn-Copied :
    (m : ℕ → ℕ) (d : ℕ) (src : ℕ → ℕ) (n : ℕ)
    → ((n ≡ 0) × (cpystrn m d src n ≡ (m, d))) ⊎ Copied m d src 0 (n - 1) (cpystrn m d src n)
unfolding cpystrn
cpystrn-Copied m d src zero = inl (refl, refl)
cpystrn-Copied m d src (suc n) =
    let one_less : suc n - 1 ≡ n = omega arith in inr (rw one_less (copy_string-Copied n m d src 0))
