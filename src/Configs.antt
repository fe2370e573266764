-- ===== src/Configs.antt =====
-- shell_tests/configs.py: the configuration's models. Fields that pydantic fills from a default are
-- plain fields here, since a value is always there after validation. Paths are texts.
pub mod Versions
pub mod Commands
pub mod Hosts
pub mod Tests
pub mod Checks
use cloudshell_shell_automat.Base.{String, Bool, Option, List}
use cloudshell_shell_automat.Base.Dict.{Dict}

pub record CloudShellConfig : Type 0 where
  pub host : String
  pub user : String
  pub password : String
  pub os_user : String
  pub os_password : String
  pub domain : String

pub record NetworkingAppConf : Type 0 where
  pub name : String
  pub blueprint_name : String

pub record CsOnDoConfig : Type 0 where
  pub cs_version : String
  pub delete_cs : Bool
  pub cs_specific_version : String

-- `DoConfig(CloudShellConfig)`
pub record DoConfig : Type 0 where
  pub base : CloudShellConfig
  pub cs_on_do_conf : Option CsOnDoConfig
  pub networking_apps : List NetworkingAppConf

pub record TestsConfig : Type 0 where
  pub expected_failures : Dict String
  pub run_tests : Bool
  pub original_run_tests : Option Bool

pub record AdditionalPort : Type 0 where
  pub name : String

pub data ResourceCommandMode : Type 0 where
  enable config : ResourceCommandMode

pub record ResourceCommand : Type 0 where
  pub command : String
  pub mode : ResourceCommandMode

pub record ResourceConfig : Type 0 where
  pub name : String
  pub shell_name : String
  pub device_ip : Option String
  pub attributes : Dict String
  pub children_attributes : Dict (Dict String)
  pub tests_conf : TestsConfig
  pub is_first_gen : Bool
  pub networking_app_name : Option String
  pub additional_ports : List AdditionalPort
  pub setup_commands : List ResourceCommand
  pub teardown_commands : List ResourceCommand

pub record DeploymentResourceConfig : Type 0 where
  pub name : String
  pub is_first_gen : Bool
  pub attributes : Dict String
  pub children_attributes : Dict (Dict String)
  pub blueprint_name : String
  pub tests_conf : TestsConfig

pub record ServiceConfig : Type 0 where
  pub name : String
  pub shell_name : Option String
  pub attributes : Dict String
  pub tests_conf : TestsConfig

-- `HostConfig`, and `HostWithUserConfig` with its two optional fields
pub record HostConfig : Type 0 where
  pub host : String

pub record HostWithUserConfig : Type 0 where
  pub host_conf : HostConfig
  pub user : Option String
  pub password : Option String

pub record ShellConfig : Type 0 where
  pub name : String
  pub path : String
  pub dependencies_path : Option String
  pub extra_standards_paths : List String
  pub tests_conf : TestsConfig

pub record SandboxConfig : Type 0 where
  pub name : String
  pub resource_names : List String
  pub deployment_resource_names : List String
  pub service_names : List String
  pub blueprint_name : Option String
  pub specific_version : Option String
  pub tests_conf : TestsConfig

pub record VcenterConfig : Type 0 where
  pub host : String
  pub user : String
  pub password : String

pub record AppConfig : Type 0 where
  pub name : String
  pub cp_resource_name : String
  pub deployment : String
  pub attributes : Dict String

pub record BlueprintConfig : Type 0 where
  pub name : String
  pub app_names : List String

pub record MainConfig : Type 0 where
  pub version : String
  pub do_conf : Option DoConfig
  pub cs_conf : Option CloudShellConfig
  pub shells_conf : List ShellConfig
  pub resources_conf : List ResourceConfig
  pub deployment_resources_conf : List DeploymentResourceConfig
  pub apps_conf : List AppConfig
  pub services_conf : List ServiceConfig
  pub ftp_conf : Option HostWithUserConfig
  pub scp_conf : Option HostWithUserConfig
  pub tftp_conf : Option HostConfig
  pub sandboxes_conf : List SandboxConfig
  pub blueprints_conf : List BlueprintConfig
  pub vcenter_conf : Option VcenterConfig
