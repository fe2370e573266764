-- ===== src/DoHandler/Apps/Leftover.antt =====
-- What `finish` of Do ends, and when it ends nothing.
use cloudshell_shell_automat.Base.{◌≡◌, Bool, true, false, none, some, List, arith}
use cloudshell_shell_automat.Errors.{Exc, is_exception, other}
use cloudshell_shell_automat.Exec.{Exec, Result, err}
use cloudshell_shell_automat.Api.{Api}
use cloudshell_shell_automat.Configs.{CloudShellConfig, CsOnDoConfig, NetworkingAppConf}
use cloudshell_shell_automat.DoHandler.Creator as Creator
use cloudshell_shell_automat.DoHandler.Apps.{Doing, finish, prepare_all, prepare}

module _ (api : Api) (server_of : CloudShellConfig → Api)
    (retry : (Exc → Bool)
      → Exec Creator.Creating CloudShellConfig
      → Exec Creator.Creating CloudShellConfig)
    (conf : CsOnDoConfig) (apps : List NetworkingAppConf) (s : Doing) where
  -- The state in which the preparation ends.
  abbrev pub failed : Result (Unit {0}) × Doing
  failed = prepare_all api server_of retry (some conf) apps s

  -- If the preparation fails by an `Exception` before the address of the new CloudShell is known, and
  -- CloudShell is not to be deleted, then `prepare` raises an `AttributeError` in place of that
  -- exception, and asks for nothing more: no sandbox of a networking app is ended.
  pub prepare_leaves :
      (e : Exc)
      → failed.0 ≡ err e
      → is_exception e ≡ true
      → failed.1.cs_conf ≡ none
      → conf.delete_cs ≡ false
      → prepare api server_of retry (some conf) apps s
        ≡ (err (other "'NoneType' object has no attribute 'host'"), failed.1)
  unfolding prepare finish
  prepare_leaves e raised ex unknown keeps = ground arith
