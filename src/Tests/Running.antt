-- ===== src/Tests/Running.antt =====
-- A sandbox with one resource, and futures that end.
use cloudshell_shell_automat.Base.{
  String, ◌≡◌, ◌↔◌, refl, Bool, true, false, none, some, List, [], ◌∷◌, All, contains,
}
use cloudshell_shell_automat.Base.Dict.{lookup}
use cloudshell_shell_automat.Errors.{Exc, keyboard_interrupt, other}
use mathlib.Core.List.{Perm}
use cloudshell_shell_automat.Exec.{Exec, Result, ok, err, for_each}
use cloudshell_shell_automat.Api.{Api, Calls, resource_info, no_child}
use cloudshell_shell_automat.CsHandler
use cloudshell_shell_automat.ResourceHandler.State.{
  State, without_device, device_type, get_details, get_commands, add_to_reservation,
}
use cloudshell_shell_automat.ResourceHandler.Commands.{run_resource_commands}
use cloudshell_shell_automat.TestSuite.Selection.{
  find_table, first_cases, select_test_cases, get_test_suite,
}
use cloudshell_shell_automat.TestSuite.Table.{test_cases_map, autoload_test_for_families}
use cloudshell_shell_automat.Report.{SandboxReport}
use cloudshell_shell_automat.RunTests.{run, wait_for_futures, exceptions_of}
use cloudshell_shell_automat.RunTests.Complete.{wait_for_futures_lem}
use cloudshell_shell_automat.RunTests.Sandboxes.{
  run_tests_for_sandboxes, run_each, run_sandbox, handlers_of, find_handlers, add_handlers,
  add_handler,
}
use cloudshell_shell_automat.RunTests.Sandboxes.Reported.{Each, run_tests_for_sandboxes-Each}
use cloudshell_shell_automat.HandlerStorage.{Stored, sandbox_handlers, resource_handlers}
use cloudshell_shell_automat.Packages.Package.{find_handler}
use cloudshell_shell_automat.SandboxHandler.{SandboxHandler}
use cloudshell_shell_automat.ShellHandler.{ShellDefinition}
use cloudshell_shell_automat.Tests.Sandboxes.{sandbox_conf}
use cloudshell_shell_automat.Tests.{server}
use cloudshell_shell_automat.Tests.Settings.{main_conf}
use cloudshell_shell_automat.Tests.Resources.{start}

abbrev firewall_server : Api
firewall_server = record server {
  resource = λ calls c. ok (
      resource_info
        (record {
          name = "fw";
          address = "NA";
          family = "CS_Firewall";
          model = "FW";
          attributes = [];
        })
        no_child);
}

abbrev passes : List (String × String) → Exec State (Bool × String)
passes suite s = (ok (true, "OK"), s)

abbrev report : SandboxReport
report = record {
  name = "sandbox";
  sandbox_is_success = true;
  test_result = "";
  resources_reports =
      record {
        name = "fw";
        ip = none;
        device_type = without_device;
        family = "CS_Firewall";
        is_success = true;
        test_result = "OK";
      }
      ∷ [];
  deployment_resources_reports = [];
  services_reports = [];
}

abbrev one_sandbox : SandboxHandler
one_sandbox = record {
  conf = record sandbox_conf { name = "sandbox"; resource_names = "fw" ∷ [] };
  reservation_id = "r1";
}

abbrev created : Stored
created = record {
  self = record {
    conf = main_conf;
    shells = none;
    resources = some (start.self ∷ []);
    sandboxes = some (one_sandbox ∷ []);
  };
  calls = [];
}

abbrev retry_never : (Exc → Bool) → Exec Calls (Unit {0}) → Exec Calls (Unit {0})
retry_never again m = m

abbrev no_definition : String → Result ShellDefinition
no_definition path = err (other "no archive")

sandboxes_example :
    let (made, t) = sandbox_handlers firewall_server retry_never none no_definition created in
    (hs in_turn : List SandboxHandler) × (made ≡ ok hs)
    × Perm in_turn hs
    × Each firewall_server retry_never none no_definition
        (λ calls. false)
        (λ case. "test" ∷ [])
        passes
        main_conf
        in_turn
        (report ∷ [])
        t
unfolding run_tests_for_sandboxes sandbox_handlers run_each run_sandbox handlers_of find_handlers
    add_handlers add_handler add_to_reservation CsHandler.add_resource_to_reservation
    resource_handlers find_handler wait_for_futures exceptions_of run run_resource_commands for_each
    get_details CsHandler.get_resource_details find_table lookup test_cases_map device_type contains
    get_commands CsHandler.get_resource_commands get_test_suite select_test_cases first_cases
    autoload_test_for_families
sandboxes_example =
    run_tests_for_sandboxes-Each firewall_server retry_never none no_definition (λ calls. false)
      (λ case. "test" ∷ []) passes main_conf (λ es. "...") created
      (record { sandboxes_reports = report ∷ [] }) refl

abbrev futures : List (Result (Unit {0}))
futures = ok tt ∷ err keyboard_interrupt ∷ []

abbrev AllReturn : Type 0
AllReturn = All (λ (r : Result (Unit {0})). r ≡ ok tt) futures

wait_example :
    ((wait_for_futures (λ es. "...") futures ≡ ok tt) ↔ AllReturn)
    × ((wait_for_futures (λ es. "...") futures ≡ err keyboard_interrupt)
        ↔ (exceptions_of futures ≡ keyboard_interrupt ∷ []))
wait_example = wait_for_futures_lem (λ es. "...") futures
