-- ===== src/Report.antt =====
-- shell_tests/report_result.py: the reports and their texts.
pub mod Success
use cloudshell_shell_automat.Base.{
  String, ◌<>◌, Bool, true, false, not, ◌&&◌, Option, none, some, List, [], ◌∷◌, map, all, is_empty,
  is_blank, join, replace, if◌then◌else◌,
}
use cloudshell_shell_automat.ResourceHandler.State.{
  DeviceType, real_device, simulator, without_device, shell_from_template,
}

pub record ResourceReport : Type 0 where
  pub name : String
  pub ip : Option String
  pub device_type : DeviceType
  pub family : String
  pub is_success : Bool
  pub test_result : String

pub record ServiceReport : Type 0 where
  pub name : String
  pub device_type : String
  pub family : String
  pub is_success : Bool
  pub test_result : String

-- A `DeploymentResourceReport` is a `ResourceReport` with another text.
pub record SandboxReport : Type 0 where
  pub name : String
  pub sandbox_is_success : Bool
  pub test_result : String
  pub resources_reports : List ResourceReport
  pub deployment_resources_reports : List ResourceReport
  pub services_reports : List ServiceReport

pub record Reporting : Type 0 where
  pub sandboxes_reports : List SandboxReport

-- `SandboxReport.is_success`
unfoldable pub sandbox_is_success : SandboxReport → Bool
sandbox_is_success r =
    let children_success =
      all (λ (c : ResourceReport). c.is_success) r.resources_reports
      && all (λ (c : ServiceReport). c.is_success) r.services_reports in
    if is_empty r.resources_reports && is_empty r.services_reports
    then false
    else children_success && r.sandbox_is_success

-- `Reporting.is_success`
unfoldable pub is_success : Reporting → Bool
unfolding sandbox_is_success
is_success r = all sandbox_is_success r.sandboxes_reports

unfoldable pub success_str : Bool → String
success_str b = if b then "successful" else "unsuccessful"

-- `str` of the `Enum`
unfoldable pub str_device_type : DeviceType → String
str_device_type real_device = "DeviceType.REAL_DEVICE"
str_device_type simulator = "DeviceType.SIMULATOR"
str_device_type without_device = "DeviceType.WITHOUT_DEVICE"
str_device_type shell_from_template = "DeviceType.SHELL_FROM_TEMPLATE"

abbrev str_ip : Option String → String
str_ip none = "None"
str_ip (some ip) = ip

unfoldable pub str_resource : ResourceReport → String
unfolding success_str str_device_type
str_resource r =
    "Resource name: "
    <> (r.name
        <> (", IP: "
            <> (str_ip r.ip
                <> (", Type: "
                    <> (str_device_type r.device_type
                        <> (", Family: "
                            <> (r.family
                                <> ("\nTest for the device was "
                                    <> (success_str r.is_success <> ("\n" <> r.test_result))))))))))

unfoldable pub str_deployment_resource : ResourceReport → String
unfolding str_resource replace
str_deployment_resource r = replace (str_resource r) "Resource name" "Deployment Resource name"

unfoldable pub str_service : ServiceReport → String
unfolding success_str
str_service r =
    "Service name: "
    <> (r.name
        <> (", Type: "
            <> (r.device_type
                <> (", Family: "
                    <> (r.family
                        <> ("\nTest for the service was "
                            <> (success_str r.is_success <> ("\n" <> r.test_result))))))))

unfoldable pub str_sandbox_tests : SandboxReport → String
unfolding success_str sandbox_is_success
str_sandbox_tests r =
    if not (is_blank r.test_result)
    then "Sandbox name: "
      <> (r.name
          <> ("\nTests for sandbox was "
              <> (success_str (sandbox_is_success r) <> ("\n" <> (r.test_result <> "\n\n")))))
    else ""

unfoldable pub str_sandbox : SandboxReport → String
unfolding str_resource str_deployment_resource str_service str_sandbox_tests join
str_sandbox r =
    "Sandbox name: "
    <> (r.name
        <> ("\nTests for sandbox, resources and services was "
            <> (success_str (sandbox_is_success r)
                <> ("\n\n"
                    <> (str_sandbox_tests r
                        <> (join "\n\n" (map str_resource r.resources_reports)
                            <> (join "\n\n"
                                  (map str_deployment_resource r.deployment_resources_reports)
                                <> join "\n\n" (map str_service r.services_reports))))))))

-- `'-' * 100` between two empty lines
abbrev separator : String
separator =
    "\n\n----------------------------------------------------------------------------------------------------\n\n"

unfoldable pub str_reporting : Reporting → String
unfolding str_sandbox is_success
str_reporting r =
    "Tests was "
    <> (success_str (is_success r)
        <> ("\n\n" <> join separator (map str_sandbox r.sandboxes_reports)))
