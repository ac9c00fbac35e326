-- ===== src/Printf/Tests.antt =====
-- Runs of the format loop, and the theorems at concrete formats.
use mysqlproxy.Base.{List, ◌≡◌, refl, [], ◌∷◌, arith}
use mysqlproxy.Base.Runs.{fault, out_of_fuel, Returns, Ends}
use mysqlproxy.Format.{integer, Out, Fpu}
use mysqlproxy.Printf.{vslprintf}
use mysqlproxy.Printf.Dot.{vslprintf-dot}
use mysqlproxy.Format.Ahead.{Ahead}
use mysqlproxy.Printf.Ends.{vslprintf-Ends}
use mysqlproxy.Printf.Items.{Item, plain, text, int, format, arguments}
use mysqlproxy.Printf.Render.{Printout, vslprintf-Printout}

abbrev no_fpu : Fpu
no_fpu = record { times_ten = λ n. n; minus = λ n i. n }

abbrev blank : Out
blank = record { mem = λ a. 0; buf = 100 }

-- "id: %d" with -7
abbrev identifier : List Item
identifier = plain 105 ∷ plain 100 ∷ int 4294967289 ∷ text (65 ∷ 66 ∷ []) ∷ []

vslprintf-Printout_example :
    Returns
      (Printout blank identifier)
      (vslprintf no_fpu 9 blank 200 (format identifier) (arguments identifier))
vslprintf-Printout_example =
    vslprintf-Printout no_fpu 9 blank 200 identifier (refl, (refl, (omega arith, (tt, tt))))
      (omega arith) (omega arith)

-- "%-4d%%"
vslprintf-Ends_example :
    Ends
      (Ahead blank)
      (vslprintf no_fpu 7 blank 200 (37 ∷ 45 ∷ 52 ∷ 100 ∷ 37 ∷ 37 ∷ []) (integer 12 ∷ []))
vslprintf-Ends_example =
    vslprintf-Ends no_fpu 7 blank 200 (37 ∷ 45 ∷ 52 ∷ 100 ∷ 37 ∷ 37 ∷ []) (integer 12 ∷ [])
      (omega arith) (refl, (refl, (refl, (refl, (refl, (refl, tt))))))

-- "%-6.2f"
vslprintf-dot_example :
    vslprintf no_fpu 1000 blank 200 (37 ∷ 45 ∷ 54 ∷ 46 ∷ 50 ∷ 102 ∷ []) [] ≡ out_of_fuel
unfolding vslprintf
vslprintf-dot_example =
    vslprintf-dot no_fpu 1000 blank 200 (45 ∷ 54 ∷ 46 ∷ 50 ∷ 102 ∷ []) (50 ∷ 102 ∷ []) []
      (omega arith) refl

-- "%N" at the end of a format: the '%' behind the line feed is the byte behind the terminator
newline_run : vslprintf no_fpu 9 blank 200 (37 ∷ 78 ∷ []) [] ≡ fault
unfolding vslprintf
newline_run = refl
