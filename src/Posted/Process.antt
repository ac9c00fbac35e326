-- ===== src/Posted/Process.antt =====
-- `spy_event_process_posted`: what the loop over a queue amounts to.
use mysqlproxy.Base.{ℕ, zero, suc, ◌≡◌, refl, ◌<◌, List, [], ◌∷◌, arith}
use mysqlproxy.Base.Runs.{Run, ok, fault, out_of_fuel, ◌>>=◌}
use mysqlproxy.State.{Queue, head_of, World}
use mysqlproxy.Posted.{taken_out, delete_posted, process_posted}
use mysqlproxy.Posted.Chain.{Chain, nil, cons}
use mysqlproxy.Posted.Remove.{taken_out-Chain}
use mysqlproxy.Posted.Delete.{delete-ok}

abbrev pub length : List ℕ → ℕ
length [] = 0
length (x ∷ xs) = suc (length xs)

-- one event after the other is taken out and handled
unfoldable pub handle_all : (ℕ → World → Run World) → List ℕ → World → Run World
handle_all handle [] w = ok w
handle_all handle (e ∷ es) w =
    delete_posted w e >>= λ w'. handle e w' >>= λ w''. handle_all handle es w''

-- Where no handler changes what the queue holds, the loop takes each event of the queue out and runs
-- its handler, once each and from front to back, and ends: it needs one round for each event and one
-- more.
pub process_posted-handle_all :
    (handle : ℕ → World → Run World) (q : Queue) (k : ℕ) {w : World} {es : List ℕ}
    → ((e : ℕ) (v v' : World) (fs : List ℕ)
        → handle e v ≡ ok v'
        → Chain v (head_of q) fs
        → Chain v' (head_of q) fs)
    → Chain w (head_of q) es
    → length es < k
    → process_posted handle k q w ≡ handle_all handle es w
unfolding process_posted handle_all
process_posted-handle_all handle q zero keep c f = absurd (omega arith)
process_posted-handle_all handle q (suc k) keep (nil r) f = rw (r, process_posted)
process_posted-handle_all handle q (suc k) {w} keep (cons {e} {es} r p out c) f =
    let taken : delete_posted w e ≡ ok (taken_out w e (head_of q)) = delete-ok w e p in
    rw (r, process_posted, taken)
      (go (λ v c'. process_posted-handle_all handle q k keep c' (omega arith))
        (handle e (taken_out w e (head_of q))) refl)
  where
    go :
        ((v : World)
          → Chain v (head_of q) es
          → process_posted handle k q v ≡ handle_all handle es v)
        → (m : Run World) → handle e (taken_out w e (head_of q)) ≡ m
        → (m >>= λ w''. process_posted handle k q w'') ≡ (m >>= λ w''. handle_all handle es w'')
    go rest (ok v) h =
        rest v (
          keep e (taken_out w e (head_of q)) v es h (taken_out-Chain [] e es (cons r p out c) tt p))
    go rest fault h = refl
    go rest out_of_fuel h = refl
