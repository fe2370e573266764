-- ===== src/DoHandler/Creator.antt =====
-- `CSCreator` of shell_tests/handlers/do_handler.py. The decorator of `_create_cloudshell` is a
-- parameter, and so is the server of the CloudShell that was created.
pub mod Ending
use cloudshell_shell_automat.Base.{
  String, Bool, true, false, ◌<>◌, Option, none, some, List, [], ◌∷◌,
}
use cloudshell_shell_automat.Base.Dict.{Dict, lookup_last}
use cloudshell_shell_automat.Errors.{Exc, cs_is_not_alive, key_error}
use cloudshell_shell_automat.Exec.{
  Exec, Result, ok, err, pure, raise, catch, skip, modify, on, when, ◌>>=◌, ◌>>◌,
}
use cloudshell_shell_automat.Api.{Api, Calls, ResourceInfo, ResourceHead, head}
use cloudshell_shell_automat.CsHandler
use cloudshell_shell_automat.Configs.{
  CloudShellConfig, CsOnDoConfig, SandboxConfig, DeploymentResourceConfig, TestsConfig,
}
use cloudshell_shell_automat.SandboxHandler
use cloudshell_shell_automat.SandboxHandler.{SandboxHandler}
use cloudshell_shell_automat.ResourceHandler.Deployed as Deployed
use cloudshell_shell_automat.ResourceHandler.Deployed.{DeploymentResourceHandler}
use cloudshell_shell_automat.DoHandler.Topology.{find_topology_name}

-- `_cs_on_do_sandbox_handler`, and the calls made so far.
pub record Creating : Type 0 where
  pub sandbox : Option SandboxHandler
  pub calls : Calls

abbrev pub asking : {A : Type 0} → Exec Calls A → Exec Creating A
asking = on (λ s. s.calls) (λ calls s. record s { calls = calls })

abbrev pub default_tests_config : TestsConfig
default_tests_config = record {
  expected_failures = [];
  run_tests = true;
  original_run_tests = none;
}

-- `isinstance(e, CSIsNotAliveError)`
unfoldable pub is_cs_is_not_alive : Exc → Bool
is_cs_is_not_alive cs_is_not_alive = true
is_cs_is_not_alive _ = false

abbrev attribute : String → Option String → Result String
attribute name none = err (key_error name)
attribute name (some value) = ok value

module _ (api : Api) (conf : CsOnDoConfig) where
  -- `_start_cs_sandbox`
  unfoldable pub start_cs_sandbox : Exec Calls SandboxHandler
  start_cs_sandbox = do
    topology_name ←
        find_topology_name api "" conf.cs_version
          ("CloudShell version " <> (conf.cs_version <> " isn't exists"))
    SandboxHandler.create api
        (record {
          name = topology_name;
          resource_names = [];
          deployment_resource_names = [];
          service_names = [];
          blueprint_name = some topology_name;
          specific_version = some conf.cs_specific_version;
          tests_conf = default_tests_config;
        })
        120

  -- `_get_cs_resource`
  unfoldable pub get_cs_resource : SandboxHandler → Exec Calls DeploymentResourceHandler
  get_cs_resource sandbox =
      Deployed.create_resource api
        (record {
          name = "CloudShell";
          is_first_gen = false;
          attributes = [];
          children_attributes = [];
          blueprint_name = conf.cs_version;
          tests_conf = default_tests_config;
        })
        sandbox

  -- `attrs["OS Login"]` and `attrs["OS Password"]`, which raise if the attribute is missing
  cs_config_of : ResourceInfo → Exec Calls CloudShellConfig
  unfolding lookup_last
  cs_config_of info = do
    login ← (λ calls.
        (attribute "OS Login" (lookup_last "OS Login" (head info).attributes none), calls))
    password ← (λ calls.
        (attribute "OS Password" (lookup_last "OS Password" (head info).attributes none), calls))
    pure (record {
      host = (head info).address;
      user = "admin";
      password = "admin";
      os_user = login;
      os_password = password;
      domain = "Global";
    })

  -- `_get_cs_config`
  unfoldable pub get_cs_config : SandboxHandler → Exec Calls CloudShellConfig
  unfolding get_cs_resource cs_config_of
  get_cs_config sandbox = do
    resource ← get_cs_resource sandbox
    info ← CsHandler.get_resource_details api resource.name
    cs_config_of info

  -- `finish`
  unfoldable pub finish : Exec Creating (Unit {0})
  finish s = elim s.sandbox [
    | none ↦ (ok tt, s)
    | some sandbox ↦ asking (SandboxHandler.end_reservation api sandbox false) s
  ]

  module _ (server_of : CloudShellConfig → Api) where
    -- The `try` block of `_create_cloudshell`.
    unfoldable pub reach_cloudshell : SandboxHandler → Exec Calls CloudShellConfig
    unfolding get_cs_config
    reach_cloudshell sandbox = do
      cs_conf ← get_cs_config sandbox
      CsHandler.wait_for_cs_is_started (server_of cs_conf)
      pure cs_conf

    -- `_create_cloudshell` as it is under its decorator.
    unfoldable pub create_cloudshell_once : Exec Creating CloudShellConfig
    unfolding start_cs_sandbox reach_cloudshell finish is_cs_is_not_alive
    create_cloudshell_once = do
      sandbox ← asking start_cs_sandbox
      modify (λ s. record s { sandbox = some sandbox })
      catch (asking (reach_cloudshell sandbox)) (λ e. when (is_cs_is_not_alive e) finish >> raise e)

    unfoldable pub create_cloudshell :
        ((Exc → Bool) → Exec Creating CloudShellConfig → Exec Creating CloudShellConfig)
        → Exec Creating CloudShellConfig
    unfolding create_cloudshell_once is_cs_is_not_alive
    create_cloudshell retry = retry is_cs_is_not_alive create_cloudshell_once
