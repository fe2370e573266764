-- ===== src/TestCases/Connectivity.antt =====
-- shell_tests/automation_tests/test_connectivity.py. The state holds the handler under test and the
-- other device's; the lock and the wait for the other Autoload are left out, what they leave in the
-- handlers' fields is not.
pub mod Ports
use cloudshell_shell_automat.Base.{
  String, ℕ, ◌<>◌, ◌==◌, Bool, not, ◌||◌, Option, none, some, List, [], ◌∷◌, ◌++◌, length, elem,
  decimal, if◌then◌else◌,
}
use cloudshell_shell_automat.Errors.{Exc, base_automation}
use cloudshell_shell_automat.Exec.{Exec, Result, ok, err, raise, finally, on, skip, ◌>>=◌, ◌>>◌}
use cloudshell_shell_automat.Api.{
  Api, Calls, ResourceInfo, ResourceHead, Children, resource_info, no_child, child, head,
}
use cloudshell_shell_automat.CsHandler
use cloudshell_shell_automat.SandboxHandler
use cloudshell_shell_automat.SandboxHandler.{SandboxHandler}
use cloudshell_shell_automat.ResourceHandler.State as Resource
use cloudshell_shell_automat.ResourceHandler.State.{ResourceHandler}

unfoldable mutual
  pub find_ports : ResourceInfo → List ResourceHead
  find_ports (resource_info h cs) =
      let below = find_ports_in cs in if h.family == "CS_Port" then h ∷ [] else below

  -- `itertools.chain(*map(find_ports, ...))`
  pub find_ports_in : Children → List ResourceHead
  find_ports_in no_child = []
  find_ports_in (child c cs) = find_ports c ++ find_ports_in cs

-- The first two, or the error.
abbrev first_two : String → ℕ → List ResourceHead → Result (String × String)
first_two name n (port1 ∷ port2 ∷ ports) = ok (port1.name, port2.name)
first_two name n ports = err (
    base_automation
      ("Resource " <> (name <> (" has too few ports for connectivity " <> decimal n))))

unfoldable pub get_port_names_for_connectivity : ResourceInfo → Result (String × String)
unfolding find_ports
get_port_names_for_connectivity info =
    first_two (head info).name (length (find_ports info)) (find_ports info)

-- `get_other_device_for_connectivity`, by the names in the sandbox's configuration and the resources.
-- Handlers are told apart by their places: the one under test is left out of the list.
unfoldable pub other_device : String → List String → List ResourceHandler → Result ResourceHandler
other_device sandbox_name resource_names [] = err (
    base_automation (
      "You have to add an additional resource to the sandbox "
      <> (sandbox_name <> " for connectivity tests")))
other_device sandbox_name resource_names (h ∷ hs) =
    if elem h.conf.name resource_names then ok h else other_device sandbox_name resource_names hs

-- The handler under test, the other device's, and the calls.
pub record State : Type 0 where
  pub handler : ResourceHandler
  pub dut : ResourceHandler
  pub calls : Calls

abbrev pub on_dut : {A : Type 0} → Exec Resource.State A → Exec State A
on_dut =
    on (λ s. record { self = s.dut; calls = s.calls })
      (λ r s. record s { dut = r.self; calls = r.calls })

abbrev pub on_calls : {A : Type 0} → Exec Calls A → Exec State A
on_calls = on (λ s. s.calls) (λ calls s. record s { calls = calls })

abbrev raised : {A : Type 0} → Result A → Exec Calls A
raised r calls = (r, calls)

abbrev is_true : Option Bool → Bool
is_true (some b) = b
is_true none = Bool.false

-- The loop over the two handlers.
unfoldable pub check_autoload : ResourceHandler → Exec Calls (Unit {0})
check_autoload h =
    if not h.autoload_finished || not (is_true h.is_autoload_success)
    then raise (
        base_automation (
          "Autoload doesn't finish for the "
          <> (h.name <> " resource, so skip testing connectivity")))
    else skip

module _ (api : Api) (sandbox : SandboxHandler) where
  details_of : ResourceHandler → Exec Calls ResourceInfo
  details_of h calls =
      let (r, s) = Resource.get_details api (record { self = h; calls = calls }) in (r, s.calls)

  -- `_test_connectivity`. It reads the handlers and does not change them.
  unfoldable pub connect_ports : ResourceHandler → ResourceHandler → Exec Calls (Unit {0})
  unfolding check_autoload get_port_names_for_connectivity details_of
  connect_ports handler dut_handler = do
    check_autoload handler
    check_autoload dut_handler
    res_info ← details_of handler
    dut_info ← details_of dut_handler
    res ← raised (get_port_names_for_connectivity res_info)
    dut ← raised (get_port_names_for_connectivity dut_info)
    SandboxHandler.add_physical_connection api sandbox res.0 dut.0
    SandboxHandler.add_physical_connection api sandbox res.1 dut.1
    SandboxHandler.connect_ports_with_connector api sandbox dut.0 dut.1 "connector"
    SandboxHandler.remove_connector api sandbox dut.0 dut.1

  -- `test_connectivity`, behind the choice of the other device
  unfoldable pub test_connectivity : Exec State (Unit {0})
  unfolding connect_ports
  test_connectivity =
      on_dut (Resource.add_to_reservation api sandbox)
      >> finally (λ s. on_calls (connect_ports s.handler s.dut) s)
          (on_dut (Resource.remove_from_reservation api sandbox))
