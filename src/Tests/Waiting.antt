-- ===== src/Tests/Waiting.antt =====
-- Reservations that start late, end late, or never.
use cloudshell_shell_automat.Base.{ℕ, zero, suc, ◌≡◌, refl, [], ◌∷◌, arith}
use cloudshell_shell_automat.Api.{Call, Calls}
use cloudshell_shell_automat.CsHandler.Reservations.{progress, wait_reservation_is_started}
use cloudshell_shell_automat.CsHandler.Reservations.Waiting.{
  polled, Pending, Incomplete, settled, reply, wait_reservation_is_started-settled,
}
use cloudshell_shell_automat.CsHandler.Reservations.Bounds.{
  Waits, wait_reservation_is_started-Waits,
}
use cloudshell_shell_automat.Tests.{slow_server, late_server}

slow-Pending : (k : ℕ) (calls : Calls) → Pending slow_server "r1" k calls
unfolding progress
slow-Pending zero calls = tt
slow-Pending (suc k) calls = (refl, slow-Pending k _)

slow-Incomplete : (k : ℕ) (calls : Calls) → Incomplete slow_server "r1" k calls
slow-Incomplete zero calls = tt
slow-Incomplete (suc k) calls = (refl, slow-Incomplete k _)

wait_settled_example :
    wait_reservation_is_started late_server "r1" []
    ≡ settled late_server "r1"
        (reply late_server "r1" (polled 2 "r1" []))
        (Call.get_reservation_status "r1" ∷ polled 2 "r1" [])
unfolding progress
wait_settled_example =
    wait_reservation_is_started-settled late_server "r1" 2 [] (omega arith) (refl, (refl, tt))
      (λ h. absurd (cc h))

wait-Waits_example : Waits 60 1800 [] (wait_reservation_is_started slow_server "r1" []).1
wait-Waits_example = wait_reservation_is_started-Waits slow_server "r1" []
