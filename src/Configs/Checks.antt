-- ===== src/Configs/Checks.antt =====
-- `MainConfig._check_cs_conf_or_do` of shell_tests/configs.py, on the raw value of the field, a dict.
use cloudshell_shell_automat.Base.{
  String, Bool, true, ◌&&◌, Option, none, some, is_none, is_empty, if◌then◌else◌,
}
use cloudshell_shell_automat.Base.Dict.{Dict}
use cloudshell_shell_automat.Errors.{value_error}
use cloudshell_shell_automat.Exec.{Result, ok, err}
use cloudshell_shell_automat.Configs.{DoConfig, CsOnDoConfig}

-- `getattr(values.get("do_conf"), "cs_on_do_conf", None)`
abbrev cs_on_do_of : Option DoConfig → Option CsOnDoConfig
cs_on_do_of none = none
cs_on_do_of (some d) = d.cs_on_do_conf

-- `not cs_conf`
abbrev is_missing : Option (Dict String) → Bool
is_missing none = true
is_missing (some d) = is_empty d

unfoldable pub check_cs_conf_or_do :
    Option DoConfig → Option (Dict String) → Result (Option (Dict String))
check_cs_conf_or_do do_conf cs_conf =
    if is_none (cs_on_do_of do_conf) && is_missing cs_conf
    then err (value_error "either CS on Do config or CloudShell config is required")
    else ok cs_conf
