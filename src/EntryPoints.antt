-- ===== src/EntryPoints.antt =====
-- What starts a run: `AutomatedTestsRunner.run` of shell_tests/run_tests.py, shell_tests/prepare_env.py
-- and shell_tests/cli.py. The parts they call stand in the other modules.
pub mod Ending
pub mod Clearing
pub mod Filling
pub mod Commands
use cloudshell_shell_automat.Base.{
  String, ℕ, Bool, true, false, not, Option, none, some, is_none, List, [], ◌∷◌, if◌then◌else◌,
}
use cloudshell_shell_automat.Errors.{Exc, other}
use cloudshell_shell_automat.Exec.{
  Exec, Result, ok, err, pure, raise, modify, finally, on, skip, ◌>>=◌, ◌>>◌,
}
use cloudshell_shell_automat.Api.{Api, Calls}
use cloudshell_shell_automat.Configs.{MainConfig, CloudShellConfig, DoConfig, ResourceConfig}
use cloudshell_shell_automat.ShellHandler.{CloudShellSmb, ShellDefinition}
use cloudshell_shell_automat.ResourceHandler.State as Resource
use cloudshell_shell_automat.ResourceHandler.State.{ResourceHandler}
use cloudshell_shell_automat.ResourceHandler.Autoload.{autoload}
use cloudshell_shell_automat.HandlerStorage.{
  HandlerStorage, Stored, asking, keep_resources, resource_handlers, sandbox_handlers,
}
use cloudshell_shell_automat.DoHandler.Creator.{Creating}
use cloudshell_shell_automat.DoHandler.Apps as Do
use cloudshell_shell_automat.DoHandler.Apps.{Doing}
use cloudshell_shell_automat.DebugLevel.{set_debug_level_via_blueprint}
use cloudshell_shell_automat.Smb.{SmbServer}
use cloudshell_shell_automat.SmbHandler as Smb
use cloudshell_shell_automat.Packages.Package as Package
use cloudshell_shell_automat.Packages.Package.{get_app_models, blueprints_of}
use cloudshell_shell_automat.Packages.{App, Xml}
use cloudshell_shell_automat.Report.{Reporting}
use cloudshell_shell_automat.RunTests.Alive.{check_all_resources_is_alive}
use cloudshell_shell_automat.RunTests.Runner.{Stage, on_stored, cs_smb_handler, run_cs_tests}
use cloudshell_shell_automat.RunTests.Sandboxes.{run_tests_for_sandboxes}

-- What a run meets: the parameters of its parts.
pub record World : Type 1 where
  -- the server behind a configuration, and the hosts that answer a ping
  pub server_of : CloudShellConfig → Api
  pub network : Api
  -- the decorators of `_create_cloudshell`, of the removal of files and of the methods of a share
  pub retry_create : (Exc → Bool) → Exec Creating CloudShellConfig → Exec Creating CloudShellConfig
  pub retry_removal : (Exc → Bool) → Exec Calls (Unit {0}) → Exec Calls (Unit {0})
  pub retry_smb : (A : Type 0) → (Exc → Bool) → Exec Smb.State A → Exec Smb.State A
  pub share : SmbServer
  pub offline_pypi : Option CloudShellSmb
  pub definition : String → Result ShellDefinition
  -- the depth of the directories of logs, and the time
  pub fuel : ℕ
  pub start_time : ℕ
  -- the tests
  pub stop : Calls → Bool
  pub test_names : String → List String
  pub run_suite : List (String × String) → Exec Resource.State (Bool × String)
  pub show : List Exc → String
  -- the package of the blueprint of scripts
  pub script : String
  -- packages
  pub random : ℕ → ℕ × ℕ
  pub draws : ℕ
  pub unparse : Xml → String
  pub driver : String
  pub now : String
  pub zip_path : String

-- What Do made and was asked for, also the calls of CloudShell; and the session with the share.
pub record Session : Type 0 where
  pub doing : Doing
  pub smb : Smb.State

abbrev pub on_doing : {A : Type 0} → Exec Doing A → Exec Session A
on_doing = on (λ s. s.doing) (λ d s. record s { doing = d })

abbrev pub on_calls : {A : Type 0} → Exec Calls A → Exec Session A
on_calls = on (λ s. s.doing.calls) (λ c s. record s { doing = record (s.doing) { calls = c } })

-- The configuration with what Do changed in it.
abbrev current : MainConfig → Session → MainConfig
current conf s = record conf { cs_conf = s.doing.cs_conf; resources_conf = s.doing.resources_conf }

-- `HandlerStorage.__init__`
unfoldable pub new_storage : MainConfig → HandlerStorage
new_storage conf = record { conf = conf; shells = none; resources = none; sandboxes = none }

abbrev smb_of : CloudShellConfig → Smb.State → Smb.State
unfolding cs_smb_handler
smb_of conf s = elim (cs_smb_handler conf) [ none ↦ s | some h ↦ record s { self = h } ]

-- By the session of the CloudShell, which is an `AttributeError` on `None`.
abbrev pub with_cs_conf : {A : Type 0} → (CloudShellConfig → Exec Session A) → Exec Session A
with_cs_conf f s = elim s.doing.cs_conf [
  | none ↦ (err (other "'NoneType' object has no attribute 'host'"), s)
  | some c ↦ f c s
]

module _ (w : World) where
  -- `_run_cs_tests` of `_run_tests_for_sandboxes`, on a new storage
  unfoldable pub test_cloudshell : MainConfig → CloudShellConfig → Exec Session Reporting
  unfolding run_cs_tests run_tests_for_sandboxes new_storage cs_smb_handler
  test_cloudshell conf c s =
      let api = w.server_of c in
      let stage : Stage = record {
        stored = record { self = new_storage conf; calls = s.doing.calls };
        smb = smb_of c s.smb;
      } in
      let (r, t) =
        run_cs_tests api w.retry_removal w.offline_pypi w.definition w.share w.retry_smb w.fuel
          w.start_time (not (is_none (cs_smb_handler c)))
          (on_stored (
            run_tests_for_sandboxes api w.retry_removal w.offline_pypi w.definition w.stop
              w.test_names w.run_suite conf w.show))
          stage in
      (r, record { doing = record (s.doing) { calls = t.stored.calls }; smb = t.smb })

  -- The body of the `with` statement of `AutomatedTestsRunner.run`
  unfoldable pub run_body : MainConfig → Exec Session Reporting
  unfolding set_debug_level_via_blueprint test_cloudshell
  run_body conf = with_cs_conf λ c.
      on_calls (set_debug_level_via_blueprint (w.server_of c) w.script)
      >> (λ s. test_cloudshell (current conf s) c s)

  -- `DoHandler.__enter__` and `__exit__`
  unfoldable pub enter_do : DoConfig → Exec Session (Unit {0})
  unfolding Do.prepare
  enter_do d =
      on_doing (
        Do.prepare (w.server_of d.base) w.server_of w.retry_create d.cs_on_do_conf
          d.networking_apps)

  unfoldable pub exit_do : DoConfig → Exec Session (Unit {0})
  unfolding Do.finish
  exit_do d = on_doing (Do.finish (w.server_of d.base) d.cs_on_do_conf)

  -- `with context: ...`
  unfoldable pub in_context : Option DoConfig → Exec Session Reporting → Exec Session Reporting
  unfolding enter_do exit_do
  in_context none body = body
  in_context (some d) body = enter_do d >> finally body (exit_do d)

  -- `AutomatedTestsRunner.run`
  unfoldable pub run : MainConfig → Exec Session Reporting
  unfolding check_all_resources_is_alive in_context run_body
  run conf =
      on_calls (check_all_resources_is_alive w.network conf)
      >> in_context conf.do_conf (run_body conf)

module _ (api : Api) where
  autoload_one : ResourceHandler → Exec Calls ResourceHandler
  unfolding autoload
  autoload_one h calls =
      let (r, s) = autoload api (record { self = h; calls = calls }) in
      elim r [ ok u ↦ (ok s.self, s.calls) | err e ↦ (err e, s.calls) ]

  -- `for rh in handler_storage.resource_handlers: rh.autoload()`, and the handlers behind it
  unfoldable pub autoload_all : List ResourceHandler → Exec Calls (List ResourceHandler)
  unfolding autoload_one
  autoload_all [] = pure []
  autoload_all (h ∷ hs) = autoload_one h >>= λ h'. autoload_all hs >>= λ hs'. pure (h' ∷ hs')

-- A package of its own, which is only there while it is filled.
abbrev with_package : {A : Type 0} → Exec Package.State A → Exec Stored A
with_package m s =
    let (r, p) = m (record { file = none; driver_added = false; calls = s.calls }) in
    (r, record s { calls = p.calls })

module _ (w : World) where
  -- `create_apps` and `create_blueprints` of the models of the apps
  unfoldable pub create_packages : Api → MainConfig → List ResourceHandler → Exec Stored (Unit {0})
  unfolding get_app_models blueprints_of Package.create_apps Package.create_blueprints
  create_packages api conf handlers =
      (λ s. (get_app_models conf.apps_conf handlers, s)) >>= λ (apps : List App).
      with_package
        (Package.create_apps w.random w.draws w.unparse w.driver w.now api w.zip_path apps)
      >> with_package (
          Package.create_blueprints w.random w.draws w.unparse w.driver w.now api w.zip_path
            (blueprints_of apps conf.blueprints_conf))

  -- The resources, their Autoload, the packages and the sandboxes.
  unfoldable pub fill_cloudshell : Api → MainConfig → Exec Stored (Unit {0})
  unfolding resource_handlers sandbox_handlers autoload_all create_packages
  fill_cloudshell api conf = do
    handlers ← resource_handlers api w.retry_removal w.offline_pypi w.definition
    loaded ← asking (autoload_all api handlers)
    modify (λ s. record s { self = keep_resources loaded s.self })
    create_packages api conf loaded
    sandbox_handlers api w.retry_removal w.offline_pypi w.definition
    skip

  -- `DoHandler(self._conf).prepare()`, if Do is configured
  abbrev prepare_do : Option DoConfig → Exec Session (Unit {0})
  unfolding enter_do
  prepare_do none = skip
  prepare_do (some d) = enter_do w d

  -- `AutomatedPrepareEnv.run`
  unfoldable pub prepare_env : MainConfig → Exec Session (Unit {0})
  unfolding check_all_resources_is_alive enter_do set_debug_level_via_blueprint fill_cloudshell
      new_storage
  prepare_env conf =
      on_calls (check_all_resources_is_alive w.network conf)
      >> prepare_do conf.do_conf
      >> with_cs_conf λ c.
        on_calls (set_debug_level_via_blueprint (w.server_of c) w.script) >> (λ s.
          let (r, t) =
            fill_cloudshell (w.server_of c) (current conf s)
              (record { self = new_storage (current conf s); calls = s.doing.calls }) in
          (r, record s { doing = record (s.doing) { calls = t.calls } }))
