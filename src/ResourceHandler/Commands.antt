-- ===== src/ResourceHandler/Commands.antt =====
-- `ResourceHandler.execute_command` and the commands that go through it.
pub mod Broken
use cloudshell_shell_automat.Base.{String, Bool, true, false, List, [], ◌∷◌}
use cloudshell_shell_automat.Base.Dict.{Dict}
use cloudshell_shell_automat.Errors.{Exc, dependencies_broken}
use cloudshell_shell_automat.Exec.{
  Exec, Result, ok, err, pure, raise, catch, when, skip, for_each, ◌>>=◌, ◌>>◌,
}
use cloudshell_shell_automat.Api.{Api, Calls}
use cloudshell_shell_automat.Configs.{ResourceCommand, ResourceCommandMode, enable, config}
use cloudshell_shell_automat.SandboxHandler
use cloudshell_shell_automat.ResourceHandler.State.{
  ResourceHandler, State, cs, set_self, sandbox_handler,
}
use cloudshell_shell_automat.ResourceHandler.Autoload.{break_dependencies}

-- `except DependenciesBrokenError`
unfoldable pub is_dependencies_broken : Exc → Bool
is_dependencies_broken dependencies_broken = true
is_dependencies_broken _ = false

module _ (api : Api) where
  unfoldable pub execute_command : String → Dict String → Exec State String
  unfolding is_dependencies_broken sandbox_handler
  execute_command command kwargs s =
      catch
        ((λ (s' : State). (sandbox_handler s'.self, s')) >>= λ sandbox.
          cs (SandboxHandler.execute_resource_command api sandbox s.self.name command kwargs))
        (λ e. when (is_dependencies_broken e) (set_self break_dependencies) >> raise e) s

  unfoldable pub health_check : Exec State String
  health_check = execute_command "health_check" []

  unfoldable pub run_custom_command : String → Exec State String
  run_custom_command command =
      execute_command "run_custom_command" (("custom_command", command) ∷ [])

  unfoldable pub run_custom_config_command : String → Exec State String
  run_custom_config_command command =
      execute_command "run_custom_config_command" (("custom_command", command) ∷ [])

  run_by_mode : ResourceCommandMode → String → Exec State String
  unfolding run_custom_command run_custom_config_command
  run_by_mode config command = run_custom_config_command command
  run_by_mode enable command = run_custom_command command

  unfoldable pub run_resource_commands : List ResourceCommand → Exec State (Unit {0})
  unfolding run_by_mode
  run_resource_commands commands =
      for_each commands (λ (c : ResourceCommand). run_by_mode c.mode c.command >> skip)

  unfoldable pub save : String → String → Exec State String
  save path_to_save configuration_type =
      execute_command "save"
        (("folder_path", path_to_save) ∷ ("configuration_type", configuration_type) ∷ [])

  unfoldable pub orchestration_save : String → String → Exec State String
  orchestration_save mode custom_params =
      execute_command "orchestration_save" (("mode", mode) ∷ ("custom_params", custom_params) ∷ [])

  unfoldable pub restore : String → String → String → Exec State String
  restore path configuration_type restore_method = execute_command "restore" (
      ("path", path)
      ∷ ("configuration_type", configuration_type)
      ∷ ("restore_method", restore_method)
      ∷ [])

  unfoldable pub orchestration_restore : String → String → Exec State String
  orchestration_restore saved_artifact_info custom_params =
      execute_command "orchestration_restore"
        (("saved_artifact_info", saved_artifact_info) ∷ ("custom_params", custom_params) ∷ [])
