-- ===== src/TestCases/Connectivity/Ports.antt =====
-- What a connectivity test leaves behind.
use cloudshell_shell_automat.Base.{◌≡◌, ◌∙◌, ap, some, [], ◌∷◌, arith}
use cloudshell_shell_automat.Exec.{Exec, ok, finally, ◌>>◌}
use cloudshell_shell_automat.Api.{Api, Call}
use cloudshell_shell_automat.CsHandler.{
  add_resource_to_reservation, remove_resource_from_reservation,
}
use cloudshell_shell_automat.SandboxHandler.{SandboxHandler}
use cloudshell_shell_automat.ResourceHandler.State.{add_to_reservation, remove_from_reservation}
use cloudshell_shell_automat.TestCases.Connectivity.{
  State, on_dut, on_calls, connect_ports, test_connectivity,
}

module _ (api : Api) (sandbox : SandboxHandler) where
  added :
      (s : State)
      → (on_dut (add_to_reservation api sandbox) s).0 ≡ ok tt
      → (on_dut (add_to_reservation api sandbox) s).1.dut ≡ record s.dut { sandbox = some sandbox }
  unfolding add_to_reservation add_resource_to_reservation
  added s h = ground arith

  -- Removing a device is one call.
  removed :
      (s : State)
      → (on_dut (remove_from_reservation api sandbox) s).1.calls
        ≡ Call.remove_resources_from_reservation sandbox.reservation_id (s.dut.name ∷ []) ∷ s.calls
  unfolding remove_from_reservation remove_resource_from_reservation
  removed s = ground arith

  behind_ok : (m k : Exec State (Unit {0})) (s : State) → (m s).0 ≡ ok tt → (m >> k) s ≡ k (m s).1
  behind_ok m k s h = ground arith

  last_calls : (m k : Exec State (Unit {0})) (s : State) → (finally m k s).1 ≡ (k (m s).1).1
  last_calls m k s = ground arith

  -- If the other device was added to the reservation, then however the test of its ports goes, the last
  -- call of `test_connectivity` asks to remove that device from the reservation.
  pub test_connectivity-removes :
      (s : State)
      → (on_dut (add_to_reservation api sandbox) s).0 ≡ ok tt
      → (test_connectivity api sandbox s).1.calls
        ≡ Call.remove_resources_from_reservation sandbox.reservation_id (s.dut.name ∷ [])
          ∷ (connect_ports api sandbox s.handler
              (record s.dut { sandbox = some sandbox })
              (on_dut (add_to_reservation api sandbox) s).1.calls).1
  unfolding test_connectivity
  test_connectivity-removes s h =
      let there = (on_dut (add_to_reservation api sandbox) s).1 in
      let ports : Exec State (Unit {0}) =
        λ s. on_calls (connect_ports api sandbox s.handler s.dut) s in
      let same =
        ap (λ r. r.1.calls)
          (behind_ok (on_dut (add_to_reservation api sandbox))
            (finally ports (on_dut (remove_from_reservation api sandbox))) s h) in
      let end =
        ap (λ t. t.calls) (last_calls ports (on_dut (remove_from_reservation api sandbox)) there) in
      let device =
        ap
          (λ d.
            Call.remove_resources_from_reservation sandbox.reservation_id (d.name ∷ [])
            ∷ (connect_ports api sandbox s.handler d there.calls).1)
          (added s h) in
      same ∙ (end ∙ (removed (ports there).1 ∙ device))
