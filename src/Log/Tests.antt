-- ===== src/Log/Tests.antt =====
-- A message to a file and to standard error.
use mysqlproxy.Base.{ℕ, ◌≡◌, refl, true, some, none, List, [], ◌∷◌}
use mysqlproxy.Base.Runs.{fault}
use mysqlproxy.Format.{Fpu}
use mysqlproxy.Printf.Items.{Item, plain, int}
use mysqlproxy.Log.{log_error_core}

abbrev no_fpu : Fpu
no_fpu = record { times_ten = λ n. n; minus = λ n i. n }

abbrev no_text : ℕ → List ℕ
no_text e = []

-- "at %d" with 12
abbrev at_twelve : List Item
at_twelve = plain b'a' ∷ plain b't' ∷ plain b' ' ∷ int 12 ∷ []

-- "alert"
abbrev alert : List ℕ
alert = b'a' ∷ b'l' ∷ b'e' ∷ b'r' ∷ b't' ∷ []

-- the cached time as spy_times.c leaves it
unset_time_run : log_error_core no_fpu 9 no_text true (some 7) none 5000 (λ a. 1) 2 [] [] 0 ≡ fault
unfolding log_error_core
unset_time_run = refl
