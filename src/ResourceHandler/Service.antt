-- ===== src/ResourceHandler/Service.antt =====
-- `ServiceHandler`. Its methods change only the record of the calls; `load_config` also writes into
-- the dict of extra arguments that it is given.
use cloudshell_shell_automat.Base.{String, Option, none, some, [], ◌∷◌}
use cloudshell_shell_automat.Base.Dict.{Dict, insert}
use cloudshell_shell_automat.Errors.{base_automation, other}
use cloudshell_shell_automat.Exec.{Exec, Result, ok, err, ◌>>=◌, ◌>>◌}
use cloudshell_shell_automat.Api.{Api, Calls}
use cloudshell_shell_automat.CsHandler
use cloudshell_shell_automat.Configs.{ServiceConfig}
use cloudshell_shell_automat.ResourceHandler.State.{DeviceType, real_device}
use cloudshell_shell_automat.SandboxHandler
use cloudshell_shell_automat.SandboxHandler.{SandboxHandler}

pub record ServiceHandler : Type 0 where
  pub name : String
  pub model : String
  pub attributes : Dict String
  pub sandbox : Option SandboxHandler

-- `__init__`
unfoldable pub init : String → Dict String → String → ServiceHandler
init name attributes model = record {
  name = name;
  model = model;
  attributes = attributes;
  sandbox = none;
}

-- `from_conf`, which reads a field that `ServiceConfig` does not have
unfoldable pub from_conf : ServiceConfig → Result ServiceHandler
from_conf conf = err (other "'ServiceConfig' object has no attribute 'model'")

unfoldable pub device_type : ServiceHandler → DeviceType
device_type self = real_device

abbrev service_sandbox : Option SandboxHandler → Result SandboxHandler
service_sandbox none = err (base_automation "You have to add Sandbox Handler")
service_sandbox (some s) = ok s

module _ (api : Api) where
  -- `SandboxHandler.add_service_to_reservation`
  unfoldable pub add_service_to_reservation :
      SandboxHandler → ServiceHandler → Exec Calls ServiceHandler
  add_service_to_reservation sandbox service = do
    CsHandler.add_service_to_reservation api sandbox.reservation_id service.model service.name
        service.attributes
    (λ calls. (ok (record service { sandbox = some sandbox }), calls))

  unfoldable pub execute_command : ServiceHandler → String → Dict String → Exec Calls String
  execute_command self command kwargs = do
    sandbox ← (λ calls. (service_sandbox self.sandbox, calls))
    SandboxHandler.execute_service_command api sandbox self.name command kwargs

  unfoldable pub load_config : ServiceHandler → String → Dict String → Exec Calls String
  load_config self config_path extra_kwargs =
      execute_command self "load_config" (insert "config_file_location" config_path extra_kwargs)

  unfoldable pub start_traffic : ServiceHandler → Dict String → Exec Calls String
  start_traffic self extra_kwargs = execute_command self "start_traffic" extra_kwargs

  unfoldable pub stop_traffic : ServiceHandler → Dict String → Exec Calls String
  stop_traffic self extra_kwargs = execute_command self "stop_traffic" extra_kwargs

  unfoldable pub get_statistics : ServiceHandler → Dict String → Exec Calls String
  get_statistics self extra_kwargs = execute_command self "get_statistics" extra_kwargs

  unfoldable pub get_test_file : ServiceHandler → String → Exec Calls String
  get_test_file self test_name =
      execute_command self "get_test_file" (("test_name", test_name) ∷ [])
