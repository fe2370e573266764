-- ===== src/Tests/Clearing.antt =====
-- A run on a CloudShell with one Shell, one resource and one sandbox.
use cloudshell_shell_automat.Base.{
  refl, Bool, true, false, none, List, [], ◌∷◌, All, any, if◌then◌else◌,
}
use mathlib.Core.List.{Perm}
use cloudshell_shell_automat.Exec.{ok}
use cloudshell_shell_automat.Api.{Api, Call, resource_info, no_child}
use cloudshell_shell_automat.Configs.{MainConfig, ShellConfig, CloudShellConfig}
use cloudshell_shell_automat.ShellHandler.{ShellDefinition, CloudShellSmb}
use cloudshell_shell_automat.SandboxHandler.{SandboxHandler}
use cloudshell_shell_automat.ResourceHandler.State.{without_device}
use cloudshell_shell_automat.Report.{SandboxReport}
use cloudshell_shell_automat.CsHandler
use cloudshell_shell_automat.SandboxHandler
use cloudshell_shell_automat.SandboxHandler.{reserve}
use cloudshell_shell_automat.ShellHandler
use cloudshell_shell_automat.ResourceHandler.State as Resource
use cloudshell_shell_automat.ResourceHandler.State.{device_type}
use cloudshell_shell_automat.ResourceHandler.Autoload.{autoload_body, autoload_once}
use cloudshell_shell_automat.HandlerStorage.Offline.{of_share}
use cloudshell_shell_automat.EntryPoints.{World, new_storage, fill_cloudshell}
use cloudshell_shell_automat.EntryPoints.Filling.{Loaded, fill_cloudshell-Loaded}
use cloudshell_shell_automat.ResourceHandler.State.{ResourceHandler}
use cloudshell_shell_automat.Base.{map, ◌≡◌, some}
use cloudshell_shell_automat.Tests.{server, ready, completed}
use cloudshell_shell_automat.Tests.Settings.{main_conf}
use cloudshell_shell_automat.Tests.Sandboxes.{sandbox_conf}
use cloudshell_shell_automat.Tests.Resources.{resource_conf}
use cloudshell_shell_automat.Tests.Runs.{world, session}

abbrev firewall : ShellDefinition
firewall = record { node_type = "vendor.firewall.FW"; template_name = "FW" }

abbrev shell_conf : ShellConfig
shell_conf = record {
  name = "FW";
  path = "fw.zip";
  dependencies_path = none;
  extra_standards_paths = [];
  tests_conf = record { expected_failures = []; run_tests = true; original_run_tests = none };
}

abbrev cloudshell_conf : CloudShellConfig
cloudshell_conf = record {
  host = "cs";
  user = "admin";
  password = "admin";
  os_user = "";
  os_password = "";
  domain = "Global";
}

-- A server on which a reservation is completed once it was asked to end.
abbrev is_end : Call → Bool
is_end (Call.end_reservation rid) = true
is_end _ = false

abbrev ending_server : Api
ending_server = record server {
  status = λ calls c. if any is_end calls then ok completed else ok ready;
  resource = λ calls c. ok (
      resource_info
        (record {
          name = "fw";
          address = "NA";
          family = "CS_Firewall";
          model = "FW";
          attributes = [];
        })
        no_child);
}

abbrev offline : CloudShellSmb
offline =
    of_share world.share world.retry_smb (λ path. []) (λ path. record { path = path; name = path })
      (λ calls. session.smb)

abbrev test_world : World
test_world = record world {
  server_of = λ c. ending_server;
  definition = λ path. ok firewall;
  offline_pypi = some offline;
}

abbrev test_conf : MainConfig
test_conf = record main_conf {
  sandboxes_conf = sandbox_conf ∷ [];
  shells_conf = shell_conf ∷ [];
  resources_conf = resource_conf ∷ [];
}

abbrev report : SandboxReport
report = record {
  name = "sandbox";
  sandbox_is_success = true;
  test_result = "";
  resources_reports =
      record {
        name = "fw";
        ip = none;
        device_type = without_device;
        family = "CS_Firewall";
        is_success = true;
        test_result = "OK";
      }
      ∷ [];
  deployment_resources_reports = [];
  services_reports = [];
}

fills_example :
    let self =
      (fill_cloudshell test_world ending_server test_conf
        (record { self = new_storage test_conf; calls = [] })).1.self in
    (hs : List ResourceHandler) × (xs : List SandboxHandler) × (self.resources ≡ some hs)
    × (self.sandboxes ≡ some xs)
    × Perm (map (λ (h : ResourceHandler). h.conf) hs) test_conf.resources_conf
    × Perm (map (λ (x : SandboxHandler). x.conf) xs) test_conf.sandboxes_conf
    × All Loaded hs
unfolding fill_cloudshell SandboxHandler.create reserve CsHandler.create_topology_reservation
    CsHandler.wait_reservation_is_started CsHandler.get_reservation_status CsHandler.progress
    ShellHandler.create CsHandler.install_shell Resource.create CsHandler.create_resource
    new_storage autoload_body autoload_once CsHandler.resource_autoload CsHandler.import_package
fills_example = fill_cloudshell-Loaded test_world ending_server test_conf [] refl
