-- ===== src/Text/Tests.antt =====
-- Runs of core/spy_string.c, and the theorems at concrete strings.
use mysqlproxy.Base.{ℕ, ◌≡◌, refl, [], ◌∷◌, arith, ◌==◌, if◌then◌else◌}
use mysqlproxy.Base.Runs.{ok, Returns}
use mysqlproxy.Text.{lower, sprintf_num}
use mysqlproxy.Text.Number.{Printed, sprintf_num-Printed}

decimal_run : sprintf_num 1970 0 [] ≡ ok (49 ∷ 57 ∷ 55 ∷ 48 ∷ [])
unfolding sprintf_num
decimal_run = refl

hexadecimal_run : sprintf_num 254 2 [] ≡ ok (70 ∷ 69 ∷ [])
unfolding sprintf_num
hexadecimal_run = refl

sprintf_num-Printed_example : Returns (Printed lower 254 20 []) (sprintf_num 254 1 [])
sprintf_num-Printed_example = sprintf_num-Printed 254 1 [] (omega arith) (omega arith)

-- the string "abc"
abbrev abc : ℕ → ℕ
abc j = if j == 0 then 97 else if j == 1 then 98 else if j == 2 then 99 else 0

abbrev blank : ℕ → ℕ
blank a = 0
