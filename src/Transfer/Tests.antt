-- ===== src/Transfer/Tests.antt =====
-- Sending and receiving where the first call is interrupted.
use mysqlproxy.Base.{ℕ, ◌≡◌, false, ◌==◌, if◌then◌else◌, arith}
use mysqlproxy.Base.Runs.{Returns}
use mysqlproxy.State.Samples.{open_world}
use mysqlproxy.Transfer.{Answer, moved, interrupted, unix_send, unix_recv}
use mysqlproxy.Transfer.Done.{Sent, Received, unix_send-Sent, unix_recv-Received}

abbrev late : ℕ → Answer
late i = if i == 0 then interrupted else moved 3

not-interrupted : (◌≡◌ {A = Answer} (moved 3) interrupted) → ⊥
not-interrupted h = ground arith

unix_send-Sent_example :
    Returns (Sent open_world 0 8 (moved 3) false) (unix_send late 2 0 open_world 0 8)
unix_send-Sent_example =
    unix_send-Sent late 1 0 open_world 0 8 (λ j p. ground arith) not-interrupted

unix_recv-Received_example :
    Returns (Received open_world 0 8 (moved 3)) (unix_recv late 2 0 open_world 0 8)
unix_recv-Received_example =
    unix_recv-Received late 1 0 open_world 0 8 (λ j p. ground arith) not-interrupted
