-- ===== src/Tests/Handlers.antt =====
-- Shells, the storage of handlers, and Do.
use cloudshell_shell_automat.Base.{
  contains, contains_lower, String, ◌≡◌, refl, Bool, true, false, none, some, List, [], ◌∷◌, length,
  ltb, if◌then◌else◌,
}
use cloudshell_shell_automat.Errors.{
  Exc, base_automation, is_exception, other, reservation_errors, shell_not_found,
}
use cloudshell_shell_automat.Exec.{for_each, Exec, Result, ok, err, catch, raise}
use cloudshell_shell_automat.Api.{Api, Call, Calls, ReservationStatus}
use cloudshell_shell_automat.CsHandler
use cloudshell_shell_automat.Configs.{CsOnDoConfig}
use cloudshell_shell_automat.ShellHandler
use cloudshell_shell_automat.ShellHandler.{ShellHandler, CloudShellSmb, ShellDefinition, prepare}
use cloudshell_shell_automat.ShellHandler.Preparing.{attempt, prepare-removal}
use cloudshell_shell_automat.SandboxHandler
use cloudshell_shell_automat.SandboxHandler.{SandboxHandler}
use cloudshell_shell_automat.HandlerStorage.{
  HandlerStorage, Stored, run_all, collect, created, last_error, finish, sandbox_handlers,
}
use cloudshell_shell_automat.HandlerStorage.History.{Asked}
use cloudshell_shell_automat.HandlerStorage.Finishing.{ending, deleting, removing, finish-Asked}
use cloudshell_shell_automat.HandlerStorage.Failing.{outcomes, kept, sandbox_handlers_fails}
use cloudshell_shell_automat.DoHandler.Topology.{find_topology_name}
use cloudshell_shell_automat.DoHandler.Creator as Creator
use cloudshell_shell_automat.DoHandler.Creator.{Creating, start_cs_sandbox, create_cloudshell_once}
use cloudshell_shell_automat.DoHandler.Apps.{Doing}
use cloudshell_shell_automat.DoHandler.Apps as Apps
use cloudshell_shell_automat.DoHandler.Apps.Leftover.{failed, prepare_leaves}
use cloudshell_shell_automat.Tests.{server, ready}
use cloudshell_shell_automat.Tests.Settings.{main_conf}
use cloudshell_shell_automat.Tests.Sandboxes.{sandbox, sandbox_conf}

-- One further try.
abbrev retry_once : {S A : Type 0} → (Exc → Bool) → Exec S A → Exec S A
retry_once retries m = catch m (λ e. if retries e then m else raise e)

abbrev shell : ShellHandler
shell = record {
  conf = record {
    name = "FW";
    path = "fw.zip";
    dependencies_path = none;
    extra_standards_paths = [];
    tests_conf = record { expected_failures = []; run_tests = true; original_run_tests = none };
  };
  model = "FW";
  cs_shell_name = "fw-shell";
}

-- A server that takes no Shell, and knows none.
abbrev accept_no_shell : Calls → Call → Result (Unit {0})
accept_no_shell calls (Call.add_shell path) = err (other "no disk space")
accept_no_shell calls (Call.delete_shell name) = err shell_not_found
accept_no_shell calls c = ok tt

abbrev full_server : Api
full_server = record server { accept = accept_no_shell }

prepare_example :
    ((x : Exc) × ((prepare full_server retry_once none shell []).0 ≡ err x))
    × ((prepare full_server retry_once none shell []).1
        ≡ Call.delete_shell "fw-shell" ∷ (attempt full_server retry_once none shell []).1)
unfolding ShellHandler.store_extra_files CsHandler.install_shell contains contains_lower
prepare_example =
    prepare-removal full_server retry_once none shell [] (other "no disk space") refl refl refl

-- The first sandbox starts, the second does not.
abbrev status_of : Calls → Call → Result ReservationStatus
status_of calls c =
    if ltb (length calls) 2
    then ok ready
    else ok (record { provisioning_status = "Error"; status = "Completed" })

abbrev one_sandbox_server : Api
one_sandbox_server = record server { status = status_of }

abbrev storage : HandlerStorage
storage = record {
  conf = record main_conf { sandboxes_conf = sandbox_conf ∷ sandbox_conf ∷ [] };
  shells = some (shell ∷ []);
  resources = none;
  sandboxes = none;
}

abbrev stored : Stored
stored = record { self = storage; calls = [] }

abbrev definition : String → Result ShellDefinition
definition path = err (other "no archive")

abbrev full_storage : HandlerStorage
full_storage = record storage { sandboxes = some (sandbox ∷ []) }

finish-Asked_example :
    let (r, after) =
      finish one_sandbox_server retry_once none full_storage (Call.connect ∷ Call.connect ∷ []) in
    Asked ending (some (sandbox ∷ [])) after
    × Asked deleting none after
    × Asked removing (some (shell ∷ [])) after
unfolding finish for_each SandboxHandler.finish CsHandler.end_reservation
    CsHandler.get_reservation_status ShellHandler.finish CsHandler.remove_shell
finish-Asked_example =
    finish-Asked one_sandbox_server retry_once none full_storage (Call.connect ∷ Call.connect ∷ [])
      tt refl

sandboxes_fail_example :
    let (r, s') = sandbox_handlers one_sandbox_server retry_once none definition stored in
    (r ≡ err (reservation_errors []))
    × Asked ending
        (some (created (outcomes one_sandbox_server retry_once none definition stored).0))
        s'.calls
    × (s'.self ≡ kept one_sandbox_server retry_once none definition stored)
unfolding last_error collect run_all SandboxHandler.create SandboxHandler.reserve
    CsHandler.create_topology_reservation CsHandler.wait_reservation_is_started
    CsHandler.get_reservation_status CsHandler.progress CsHandler.end_reservation finish for_each
    created SandboxHandler.finish ShellHandler.finish CsHandler.remove_shell
sandboxes_fail_example =
    sandbox_handlers_fails one_sandbox_server retry_once none definition stored
      (reservation_errors []) tt refl refl refl

abbrev single : Stored
single = record stored {
  self = record storage { conf = record main_conf { sandboxes_conf = sandbox_conf ∷ [] } };
}

abbrev names_of : Calls → Call → Result (List String)
names_of calls c = ok ("Other/CS 9" ∷ "Environments/CS 9" ∷ "CS 8" ∷ [])

abbrev do_server : Api
do_server = record server { names = names_of }

abbrev cs_on_do : CsOnDoConfig
cs_on_do = record { cs_version = "CS 9"; delete_cs = false; cs_specific_version = "" }

abbrev cs_sandbox : SandboxHandler
cs_sandbox = record {
  conf = record sandbox_conf {
    name = "Environments/CS 9";
    resource_names = [];
    blueprint_name = some "Environments/CS 9";
    specific_version = some "";
  };
  reservation_id = "r1";
}

-- No topology of CloudShell's name.
abbrev doing : Doing
doing = record {
  cs_conf = none;
  resources_conf = [];
  cs_sandbox = none;
  app_sandboxes = cs_sandbox ∷ [];
  calls = [];
}

prepare_leaves_example : Apps.prepare server (λ c. server) retry_once (some cs_on_do) [] doing ≡ (
  err (other "'NoneType' object has no attribute 'host'"),
  (failed server (λ c. server) retry_once cs_on_do [] doing).1,
)
unfolding Apps.prepare_all Creator.create_cloudshell find_topology_name
    CsHandler.get_topologies_by_category is_exception
prepare_leaves_example =
    prepare_leaves server (λ c. server) retry_once cs_on_do [] doing
      (base_automation "CloudShell version CS 9 isn't exists") refl refl refl refl
