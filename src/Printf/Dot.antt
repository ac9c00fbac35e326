-- ===== src/Printf/Dot.antt =====
-- A precision in a format: the loop over width and length does not step over its '.'.
use mysqlproxy.Base.{ℕ, zero, suc, ◌<◌, ◌≡◌, refl, true, List, ◌∷◌, arith, ltb}
use mysqlproxy.Base.Runs.{out_of_fuel}
use mysqlproxy.Format.{Arg, Out, Fpu, initial_spec, flags, number}
use mysqlproxy.Format.Scan.{lengths-dot}
use mysqlproxy.Printf.{vslprintf, expand}

-- A directive whose flags and width are followed by a '.' never ends: however many rounds the loops are
-- given, they are all used up.
pub vslprintf-dot :
    (fpu : Fpu) (k : ℕ) (o : Out) (last : ℕ) (fmt rest : List ℕ) (xs : List Arg)
    → o.buf < last
    → (number 0 (flags initial_spec fmt).1).1 ≡ b'.' ∷ rest
    → vslprintf fpu k o last (b'%' ∷ fmt) xs ≡ out_of_fuel
unfolding vslprintf expand
vslprintf-dot fpu zero o last fmt rest xs p h = refl
vslprintf-dot fpu (suc k) o last fmt rest xs p h =
    let go : ltb o.buf last ≡ true = ground arith in rw (go, h, lengths-dot k _ rest xs) refl
