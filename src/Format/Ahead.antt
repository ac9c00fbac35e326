-- ===== src/Format/Ahead.antt =====
-- Writing to the output moves `buf` on, and leaves what is in front of it.
use mysqlproxy.Base.{◌∙◌, ℕ, ◌+◌, ◌≤◌, ◌<◌, ◌≡◌, refl, List, arith}
use mysqlproxy.Posted.Process.{length}
use mysqlproxy.Text.{copy}
use mysqlproxy.Text.Pad.{printf_pad-before, copy-before}
use mysqlproxy.Format.{Spec, Out, bytes, put, pad}

-- `buf` has not moved back, and nothing in front of it is written
pub record Ahead (o o' : Out) : Type 0 where
  pub forward : o.buf ≤ o'.buf
  pub kept : (a : ℕ) → a < o.buf → o'.mem a ≡ o.mem a

pub Ahead-same : (o : Out) → Ahead o o
Ahead-same o = record { forward = omega arith; kept = λ a p. refl }

pub Ahead-trans : {o p q : Out} → Ahead o p → Ahead p q → Ahead o q
Ahead-trans h k = record {
  forward = omega (arith, h.forward, k.forward);
  kept = λ a p. k.kept a (omega (arith, h.forward)) ∙ h.kept a p;
}

pub put-Ahead : (o : Out) (c : ℕ) → Ahead o (put o c)
put-Ahead o c = record { forward = omega arith; kept = λ a p. ground arith }

pub pad-Ahead : (o : Out) (last : ℕ) (s : Spec) (text : List ℕ) → Ahead o (pad o last s text)
pad-Ahead o last s text =
    let (f, k) =
      printf_pad-before o.mem o.buf last s.width (length text) s.zero_char (bytes text) s.align in
    record { forward = f; kept = k }

pub copy-Ahead :
    (o : Out) (p : ℕ → ℕ) (len : ℕ)
    → Ahead o (record { mem = copy o.mem o.buf p len; buf = o.buf + len })
copy-Ahead o p len = record {
  forward = omega arith;
  kept = λ a h. copy-before o.mem o.buf p len a h;
}
