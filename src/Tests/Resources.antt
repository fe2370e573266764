-- ===== src/Tests/Resources.antt =====
-- A resource whose Autoload fails, its attributes and its commands.
use cloudshell_shell_automat.Base.{◌≡◌, refl, true, false, none, [], ◌∷◌, break_last}
use cloudshell_shell_automat.Errors.{Exc, is_exception, api_error, keyboard_interrupt}
use cloudshell_shell_automat.Exec.{Result, ok, err}
use cloudshell_shell_automat.Api.{Api, Call, Calls}
use cloudshell_shell_automat.CsHandler
use cloudshell_shell_automat.CsHandler.{pypi_is_down}
use cloudshell_shell_automat.Configs.{ResourceConfig}
use cloudshell_shell_automat.ResourceHandler.State.{State}
use cloudshell_shell_automat.ResourceHandler.Attributes.{find_namespace}
use cloudshell_shell_automat.ResourceHandler.Attributes.Namespaces.{find_namespace-missing}
use cloudshell_shell_automat.ResourceHandler.Autoload.{
  autoload_once, autoload_body, autoload, autoload_if_needed, waits,
}
use cloudshell_shell_automat.ResourceHandler.Autoload.Flags.{
  Ended, autoload-Ended, autoload_if_needed_after,
}
use cloudshell_shell_automat.Tests.{server}

abbrev pub resource_conf : ResourceConfig
resource_conf = record {
  name = "fw";
  shell_name = "FW";
  device_ip = none;
  attributes = [];
  children_attributes = [];
  tests_conf = record { expected_failures = []; run_tests = true; original_run_tests = none };
  is_first_gen = false;
  networking_app_name = none;
  additional_ports = [];
  setup_commands = [];
  teardown_commands = [];
}

abbrev pub start : State
start = record {
  self = record {
    conf = resource_conf;
    name = "fw";
    attributes = ("User", "guest") ∷ ("Port", "22") ∷ [];
    model = "FW";
    dependencies_are_broken = false;
    sandbox = none;
    autoload_started = false;
    autoload_finished = false;
    is_autoload_success = none;
  };
  calls = [];
}

find_missing_example :
    (find_namespace "User" "FW" (("A.Port", "22") ∷ ("B.Host", "") ∷ []) ≡ ok "B")
    × (find_namespace "User" "FW" [] ≡ ok "FW")
unfolding break_last
find_missing_example =
    find_namespace-missing "User" "B.Host" "" "B" "Host" "FW" (("A.Port", "22") ∷ [])
      (refl, (refl, tt)) refl

abbrev pypi_error : Exc
pypi_error = api_error "100" "failed" pypi_is_down

-- Every Autoload runs into a broken PyPI.
abbrev accept_no_load : Calls → Call → Result (Unit {0})
accept_no_load calls (Call.auto_load name) = err pypi_error
accept_no_load calls c = ok tt

abbrev broken_server : Api
broken_server = record server { accept = accept_no_load }

-- The user interrupts the Autoload.
abbrev accept_interrupted : Calls → Call → Result (Unit {0})
accept_interrupted calls (Call.auto_load name) = err keyboard_interrupt
accept_interrupted calls c = ok tt

abbrev interrupted_server : Api
interrupted_server = record server { accept = accept_interrupted }

autoload-Ended_example :
    Ended broken_server start.self
      (autoload broken_server start).0
      (autoload broken_server start).1.self
autoload-Ended_example = autoload-Ended broken_server start

autoload_after_example :
    autoload_if_needed interrupted_server (autoload interrupted_server start).1
    ≡ (ok waits, (autoload interrupted_server start).1)
unfolding autoload autoload_body autoload_once CsHandler.resource_autoload is_exception
autoload_after_example = autoload_if_needed_after interrupted_server start refl
