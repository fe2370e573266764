-- ===== src/DoHandler/Apps.antt =====
-- `NetworkingAppsHandler` and `DoHandler` of shell_tests/handlers/do_handler.py.
pub mod Leftover
pub mod Ended
use cloudshell_shell_automat.Base.{
  String, Bool, true, false, not, ◌<>◌, ◌==◌, is_blank, Option, none, some, List, [], ◌∷◌, ◌++◌,
  map, if◌then◌else◌,
}
use cloudshell_shell_automat.Base.Dict.{Dict, lookup, update}
use cloudshell_shell_automat.Errors.{Exc, base_automation, is_exception, other}
use cloudshell_shell_automat.Exec.{
  Exec, Result, ok, err, pure, raise, catch, skip, modify, gets, on, when, for_each, ◌>>=◌, ◌>>◌,
}
use cloudshell_shell_automat.Api.{Api, Calls}
use cloudshell_shell_automat.Configs.{
  CloudShellConfig, CsOnDoConfig, NetworkingAppConf, ResourceConfig, SandboxConfig,
  DeploymentResourceConfig, MainConfig,
}
use cloudshell_shell_automat.SandboxHandler
use cloudshell_shell_automat.SandboxHandler.{SandboxHandler, text_or_empty, is_given}
use cloudshell_shell_automat.ResourceHandler.Deployed as Deployed
use cloudshell_shell_automat.ResourceHandler.Deployed.{DeploymentResourceHandler}
use cloudshell_shell_automat.DoHandler.Topology.{find_topology_name}
use cloudshell_shell_automat.DoHandler.Creator as Creator
use cloudshell_shell_automat.DoHandler.Creator.{default_tests_config}

-- The parts of the configuration that change, the sandbox of CloudShell, those of the apps, and the
-- calls made so far.
pub record Doing : Type 0 where
  pub cs_conf : Option CloudShellConfig
  pub resources_conf : List ResourceConfig
  pub cs_sandbox : Option SandboxHandler
  pub app_sandboxes : List SandboxHandler
  pub calls : Calls

abbrev pub asking : {A : Type 0} → Exec Calls A → Exec Doing A
asking = on (λ s. s.calls) (λ calls s. record s { calls = calls })

-- A future, and `future.result()`.
abbrev future : {A : Type 0} → Exec Doing A → Exec Doing (Result A)
future m s = let (r, s') = m s in (ok r, s')

abbrev result : {A : Type 0} → Result A → Exec Doing A
result r s = (r, s)

-- A method of `CSCreator`.
abbrev pub creator : {A : Type 0} → Exec Creator.Creating A → Exec Doing A
creator =
    on (λ s. record { sandbox = s.cs_sandbox; calls = s.calls })
      (λ c s. record s { cs_sandbox = c.sandbox; calls = c.calls })

abbrev admin_attributes : Dict String
admin_attributes = ("User", "admin") ∷ ("Password", "admin") ∷ ("Enable Password", "admin") ∷ []

-- What `_update_resource_conf_from_deployment_resource` makes of the configuration it finds.
unfoldable pub with_device : String → ResourceConfig → ResourceConfig
unfolding lookup update
with_device ip conf = record conf {
  device_ip = some ip;
  attributes =
      if is_given (lookup "User" conf.attributes)
      then conf.attributes
      else update conf.attributes admin_attributes;
}

abbrev is_for : String → Option String → Bool
is_for name none = false
is_for name (some app) = app == name

-- The first configuration for the app is changed; `none` if there is none.
unfoldable pub change_first :
    String → (ResourceConfig → ResourceConfig) → List ResourceConfig → Option (List ResourceConfig)
change_first name f [] = none
change_first name f (conf ∷ confs) =
    let rest = change_first name f confs in
    if is_for name conf.networking_app_name
    then some (f conf ∷ confs)
    else elim rest [ none ↦ none | some cs ↦ some (conf ∷ cs) ]

module _ (api : Api) where
  -- `_start_app_sandbox`
  unfoldable pub start_app_sandbox : String → Exec Calls SandboxHandler
  start_app_sandbox app_name = do
    topology_name ←
        find_topology_name api "Networking Apps" app_name
          ("Networking App " <> (app_name <> " isn't exists"))
    SandboxHandler.create api
        (record {
          name = "Networking App " <> app_name;
          resource_names = [];
          deployment_resource_names = [];
          service_names = [];
          blueprint_name = some topology_name;
          specific_version = none;
          tests_conf = default_tests_config;
        })
        120

  -- `_create_app`, with `_get_app_resource`
  unfoldable pub create_app : NetworkingAppConf → Exec Doing DeploymentResourceHandler
  unfolding start_app_sandbox
  create_app app_conf = do
    sandbox ← asking (start_app_sandbox app_conf.blueprint_name)
    modify (λ s. record s { app_sandboxes = sandbox ∷ s.app_sandboxes })
    asking (
        Deployed.create_resource api
          (record {
            name = app_conf.name;
            is_first_gen = false;
            attributes = [];
            children_attributes = [];
            blueprint_name = app_conf.blueprint_name;
            tests_conf = default_tests_config;
          })
          sandbox)

  -- `_update_resource_conf_from_deployment_resource`. The address is asked for behind the search.
  unfoldable pub update_resource_conf : DeploymentResourceHandler → Exec Doing (Unit {0})
  unfolding change_first with_device
  update_resource_conf handler s = elim (change_first handler.conf.name (λ c. c) s.resources_conf) [
    | none ↦
        raise
          (base_automation
            ("Resource " <> (handler.conf.name <> " is not present in resources config")))
          s
    | some confs ↦
        (do
          ip ← asking (λ calls.
              let (r, d) = Deployed.device_ip api (record { self = handler; calls = calls }) in
              (r, d.calls))
          modify (λ t. elim (change_first handler.conf.name (with_device ip) t.resources_conf) [
            | none ↦ t
            | some cs ↦ record t { resources_conf = cs }
          ]))
          s
  ]

  -- `NetworkingAppsHandler.finish`
  unfoldable pub finish_apps : Exec Doing (Unit {0})
  unfolding for_each
  finish_apps s =
      asking (for_each s.app_sandboxes (λ h. SandboxHandler.end_reservation api h false)) s

  -- `ip = self._conf.cs_conf.host`, for the log
  abbrev log_address : Exec Doing (Unit {0})
  log_address s = elim s.cs_conf [
    | none ↦ (err (other "'NoneType' object has no attribute 'host'"), s)
    | some c ↦ (ok tt, s)
  ]

  finish_cs : Option CsOnDoConfig → Exec Doing (Unit {0})
  finish_cs none = skip
  finish_cs (some conf) = if conf.delete_cs then creator (Creator.finish api conf) else log_address

  -- `DoHandler.finish`
  unfoldable pub finish : Option CsOnDoConfig → Exec Doing (Unit {0})
  unfolding finish_cs finish_apps
  finish cs_on_do_conf = finish_cs cs_on_do_conf >> finish_apps

  -- `DoHandler._prepare` and `prepare`: CloudShell, if there is to be one, and the apps.
  module _ (server_of : CloudShellConfig → Api)
      (retry : (Exc → Bool)
        → Exec Creator.Creating CloudShellConfig
        → Exec Creator.Creating CloudShellConfig) where
    create_cs : Option CsOnDoConfig → Exec Doing (Option CloudShellConfig)
    create_cs none = pure none
    create_cs (some conf) =
        creator (Creator.create_cloudshell api conf server_of retry) >>= λ c. pure (some c)

    keep_cs_conf : Option CloudShellConfig → Exec Doing (Unit {0})
    keep_cs_conf none = skip
    keep_cs_conf (some c) = modify (λ s. record s { cs_conf = some c })

    -- The futures run to their ends, whatever they raise; their results are looked at later.
    create_apps : List NetworkingAppConf → Exec Doing (List (Result DeploymentResourceHandler))
    unfolding create_app
    create_apps [] = pure []
    create_apps (app ∷ apps) = do r ← future (create_app app); rs ← create_apps apps; pure (r ∷ rs)

    unfoldable pub prepare_all :
        Option CsOnDoConfig → List NetworkingAppConf → Exec Doing (Unit {0})
    unfolding create_cs create_apps update_resource_conf keep_cs_conf for_each
    prepare_all cs_on_do_conf apps = do
      c ← future (create_cs cs_on_do_conf)
      rs ← create_apps apps
      for_each rs (λ r. result r >>= update_resource_conf)
      result c >>= keep_cs_conf

    unfoldable pub prepare : Option CsOnDoConfig → List NetworkingAppConf → Exec Doing (Unit {0})
    unfolding prepare_all finish is_exception
    prepare cs_on_do_conf apps =
        catch (prepare_all cs_on_do_conf apps)
          (λ e. when (is_exception e) (finish cs_on_do_conf) >> raise e)
