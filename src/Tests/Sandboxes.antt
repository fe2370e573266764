-- ===== src/Tests/Sandboxes.antt =====
-- Sandboxes that are made and that fail, and their reports.
use cloudshell_shell_automat.Base.{
  String, ◌≡◌, ◌↔◌, ◌⊎◌, refl, true, none, some, List, [], ◌∷◌, keep, elem, All,
}
use cloudshell_shell_automat.Errors.{reservation_errors}
use cloudshell_shell_automat.Exec.{Result, ok, err}
use cloudshell_shell_automat.Api.{Api, Call, Calls}
use cloudshell_shell_automat.CsHandler
use cloudshell_shell_automat.CsHandler.Reservations.{progress, wait_reservation_is_started}
use cloudshell_shell_automat.Configs.{SandboxConfig}
use cloudshell_shell_automat.SandboxHandler.{
  SandboxHandler, reserve, create, is_of_app, get_deployment_resource_name,
}
use cloudshell_shell_automat.SandboxHandler.Creation.{create-ends_reservation}
use cloudshell_shell_automat.SandboxHandler.Deployment.{get_deployment_resource_name_sound}
use cloudshell_shell_automat.ResourceHandler.State.{without_device}
use cloudshell_shell_automat.Report.{Reporting, is_success}
use cloudshell_shell_automat.Report.Success.{Succeeds, is_success_iff}
use cloudshell_shell_automat.Tests.{server}

abbrev pub sandbox_conf : SandboxConfig
sandbox_conf = record {
  name = "sandbox";
  resource_names = "fw" ∷ [];
  deployment_resource_names = [];
  service_names = [];
  blueprint_name = some "blueprint";
  specific_version = none;
  tests_conf = record { expected_failures = []; run_tests = true; original_run_tests = none };
}

abbrev pub sandbox : SandboxHandler
sandbox = record { conf = sandbox_conf; reservation_id = "r1" }

abbrev reserving : Calls
reserving = Call.create_immediate_topology_reservation "sandbox" "admin" 30 "blueprint" [] ∷ []

-- The reservation fails, for a reason that the server tells.
abbrev failing_server : Api
failing_server = record server {
  status = λ calls c. ok (record { provisioning_status = "Error"; status = "Started" });
  errors = λ calls c. ok (("app", "no license") ∷ []);
}

create_ends_example :
    ((reserve failing_server sandbox_conf 30 []).0
      ≡ err (reservation_errors (("app", "no license") ∷ [])))
    ⊎ ((rid : String) × ((reserve failing_server sandbox_conf 30 []).0 ≡ ok rid)
        × ((earlier : Calls) × ((create failing_server sandbox_conf 30 []).1
              ≡ Call.end_reservation rid ∷ earlier)))
unfolding create reserve CsHandler.create_topology_reservation CsHandler.wait_reservation_is_started
    progress CsHandler.get_reservation_status CsHandler.end_reservation
create_ends_example =
    create-ends_reservation failing_server sandbox_conf 30 []
      (reservation_errors (("app", "no license") ∷ [])) refl

-- One app, and among the resources one of its name.
abbrev names_of : Calls → Call → Result (List String)
names_of calls (Call.get_topology_details name) = ok ("my vm" ∷ [])
names_of calls c = ok ("fw" ∷ "my-vm-2f" ∷ [])

abbrev app_server : Api
app_server = record server { names = names_of }

deployment_example :
    (app : String) × (names : List String) × (ok ("my vm" ∷ []) ≡ ok (app ∷ []))
    × (ok ("fw" ∷ "my-vm-2f" ∷ []) ≡ ok names)
    × (keep (is_of_app app) names ≡ "my-vm-2f" ∷ [])
    × (is_of_app app "my-vm-2f" ≡ true)
    × (elem "my-vm-2f" names ≡ true)
unfolding get_deployment_resource_name CsHandler.get_topology_details
    CsHandler.get_resources_names_in_reservation
deployment_example = get_deployment_resource_name_sound app_server sandbox [] "my-vm-2f" refl

abbrev reporting : Reporting
reporting = record {
  sandboxes_reports =
      record {
        name = "sandbox";
        sandbox_is_success = true;
        test_result = "";
        resources_reports =
            record {
              name = "fw";
              ip = none;
              device_type = without_device;
              family = "CS_Firewall";
              is_success = true;
              test_result = "OK";
            }
            ∷ [];
        deployment_resources_reports = [];
        services_reports = [];
      }
      ∷ [];
}

is_success_example : (is_success reporting ≡ true) ↔ All Succeeds reporting.sandboxes_reports
is_success_example = is_success_iff reporting
