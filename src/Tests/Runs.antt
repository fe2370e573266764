-- ===== src/Tests/Runs.antt =====
-- A run on Do, from the check of the hosts to the end.
use cloudshell_shell_automat.Base.{String, refl, true, false, none, some, List, [], ◌∷◌}
use cloudshell_shell_automat.Errors.{other}
use cloudshell_shell_automat.Exec.{Result, ok, err}
use cloudshell_shell_automat.Api.{Api, Call, resource_info, no_child}
use cloudshell_shell_automat.Configs.{MainConfig, DoConfig, CsOnDoConfig}
use cloudshell_shell_automat.CsHandler
use cloudshell_shell_automat.SandboxHandler
use cloudshell_shell_automat.SandboxHandler.{SandboxHandler, reserve, get_deployment_resource_name}
use cloudshell_shell_automat.ResourceHandler.Deployed.{create_resource}
use cloudshell_shell_automat.DoHandler.Topology.{find_topology_name}
use cloudshell_shell_automat.DoHandler.Creator.{create_cloudshell}
use cloudshell_shell_automat.RunTests.Alive.{check_all_resources_is_alive}
use cloudshell_shell_automat.Smb.{SmbServer}
use cloudshell_shell_automat.EntryPoints.{World, Session, run, enter_do}
use cloudshell_shell_automat.EntryPoints.Ending.{run-ends_cs}
use cloudshell_shell_automat.HandlerStorage.History.{Made}
use cloudshell_shell_automat.Tests.{server}
use cloudshell_shell_automat.Tests.Settings.{main_conf}
use cloudshell_shell_automat.Tests.Sandboxes.{sandbox_conf}

abbrev names_of_call : Call → Result (List String)
names_of_call (Call.get_topologies_by_category c) = ok ("CS 9" ∷ [])
names_of_call _ = ok ("vm" ∷ [])

abbrev do_api : Api
do_api = record server {
  names = λ calls c. names_of_call c;
  resource = λ calls c. ok (
      resource_info
        (record {
          name = "vm";
          address = "10.0.0.1";
          family = "CS_VM";
          model = "VM";
          attributes = ("OS Login", "admin") ∷ ("OS Password", "secret") ∷ [];
        })
        no_child);
}

abbrev silent_share : SmbServer
silent_share = record {
  accept = λ calls c. err (other "refused");
  files = λ calls c. ok [];
  bytes = λ calls c. ok "";
}

abbrev pub world : World
world = record {
  server_of = λ c. do_api;
  network = server;
  retry_create = λ again m. m;
  retry_removal = λ again m. m;
  retry_smb = λ A again m. m;
  share = silent_share;
  offline_pypi = none;
  definition = λ path. err (other "no archive");
  fuel = 3;
  start_time = 0;
  stop = λ calls. false;
  test_names = λ case. [];
  run_suite = λ suite s. (ok (true, "OK"), s);
  show = λ es. "...";
  script = "scripts.zip";
  random = λ n. (600, 340);
  draws = 3;
  unparse = λ x. "";
  driver = "";
  now = "";
  zip_path = "package.zip";
}

abbrev cloudshell : CsOnDoConfig
cloudshell = record { cs_version = "CS 9"; delete_cs = true; cs_specific_version = "" }

abbrev do_conf : DoConfig
do_conf = record {
  base = record {
    host = "do";
    user = "admin";
    password = "admin";
    os_user = "";
    os_password = "";
    domain = "Global";
  };
  cs_on_do_conf = some cloudshell;
  networking_apps = [];
}

abbrev conf : MainConfig
conf = record main_conf { do_conf = some do_conf }

abbrev pub session : Session
session = record {
  doing = record {
    cs_conf = none;
    resources_conf = [];
    cs_sandbox = none;
    app_sandboxes = [];
    calls = [];
  };
  smb = record {
    self = record {
      domain = none;
      username = "";
      password = "";
      server_ip = "";
      server_name = "";
      share = "C$";
      session = false;
    };
    calls = [];
  };
}

abbrev cs_sandbox : SandboxHandler
cs_sandbox = record {
  conf = record sandbox_conf {
    name = "CS 9";
    resource_names = [];
    blueprint_name = some "CS 9";
    specific_version = some "";
  };
  reservation_id = "r1";
}

run_ends_cs_example : Made (Call.end_reservation "r1") (run world conf session).1.doing.calls
unfolding check_all_resources_is_alive enter_do create_cloudshell find_topology_name
    CsHandler.get_topologies_by_category SandboxHandler.create reserve
    CsHandler.create_topology_reservation CsHandler.wait_reservation_is_started
    CsHandler.get_reservation_status CsHandler.progress create_resource get_deployment_resource_name
    CsHandler.get_topology_details CsHandler.get_resources_names_in_reservation
    CsHandler.get_resource_details CsHandler.wait_for_cs_is_started
run_ends_cs_example =
    run-ends_cs world conf do_conf session refl refl refl cloudshell cs_sandbox refl refl refl
