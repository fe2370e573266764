-- ===== src/CsHandler/Commands.antt =====
-- `CloudShellHandler` of shell_tests/handlers/cs_handler.py: Autoload and commands on resources and services.
use cloudshell_shell_automat.Base.{String, contains, if◌then◌else◌}
use cloudshell_shell_automat.Base.Dict.{Dict}
use cloudshell_shell_automat.Errors.{Exc, api_error, dependencies_broken}
use cloudshell_shell_automat.Exec.{Exec, raise, catch}
use cloudshell_shell_automat.Api.{Api, Call, Calls, perform}

abbrev pub pypi_is_down : String
pypi_is_down = "The PyPi server process might be down or inaccessible"

-- The handler of `resource_autoload` and `_execute_command`.
unfoldable pub translate_dependencies : Exc → Exc
translate_dependencies (api_error c m t) =
    if contains pypi_is_down t then dependencies_broken else api_error c m t
translate_dependencies e = e

module _ (api : Api) where
  unfoldable pub resource_autoload : String → Exec Calls (Unit {0})
  unfolding translate_dependencies
  resource_autoload name =
      catch (perform api.accept (Call.auto_load name)) λ e. raise (translate_dependencies e)

  unfoldable pub update_driver_for_the_resource : String → String → Exec Calls (Unit {0})
  update_driver_for_the_resource name driver =
      perform api.accept (Call.update_resource_driver name driver)

  unfoldable pub execute_command_on :
      String → String → String → String → Dict String → Exec Calls String
  unfolding translate_dependencies
  execute_command_on rid target kind command kwargs =
      catch (perform api.text (Call.execute_command rid target kind command kwargs))
        λ e. raise (translate_dependencies e)

  unfoldable pub execute_command_on_resource :
      String → String → String → Dict String → Exec Calls String
  unfolding execute_command_on
  execute_command_on_resource rid name command kwargs =
      execute_command_on rid name "Resource" command kwargs

  unfoldable pub execute_command_on_service :
      String → String → String → Dict String → Exec Calls String
  unfolding execute_command_on
  execute_command_on_service rid name command kwargs =
      execute_command_on rid name "Service" command kwargs

  unfoldable pub execute_reservation_command : String → String → Dict String → Exec Calls String
  execute_reservation_command rid command params =
      perform api.text (Call.execute_environment_command rid command params)
