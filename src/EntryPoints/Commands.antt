-- ===== src/EntryPoints/Commands.antt =====
-- The commands of shell_tests/cli.py, and `MainConfig.update_from_cli_params` of
-- shell_tests/configs.py. The reading and validation of the file is a parameter.
use cloudshell_shell_automat.Base.{String, Bool, Option, none, some, List, [], ◌∷◌}
use cloudshell_shell_automat.Errors.{index_error}
use cloudshell_shell_automat.Exec.{Exec, Result, ok, err, pure, ◌>>=◌}
use cloudshell_shell_automat.Configs.{MainConfig, ShellConfig}
use cloudshell_shell_automat.Report.{Reporting, is_success}
use cloudshell_shell_automat.EntryPoints.{World, Session, run, prepare_env}

abbrev with_first_shell : MainConfig → String → List ShellConfig → Result MainConfig
with_first_shell conf path [] = err index_error
with_first_shell conf path (shell ∷ shells) =
    ok (record conf { shells_conf = (record shell { dependencies_path = some path }) ∷ shells })

-- `update_from_cli_params`; an option that is not given is `none`.
unfoldable pub update_from_cli_params : Option String → MainConfig → Result MainConfig
update_from_cli_params none conf = ok conf
update_from_cli_params (some path) conf = with_first_shell conf path conf.shells_conf

module _ (w : World) (from_yaml : String → Result MainConfig) where
  abbrev configured : String → Option String → Exec Session MainConfig
  unfolding update_from_cli_params
  configured test_conf first_shell_dependencies_path = (λ s. (from_yaml test_conf, s)) >>= λ conf s.
      (update_from_cli_params first_shell_dependencies_path conf, s)

  -- The command `run-tests`
  unfoldable pub run_tests : String → Option String → Exec Session (Bool × Reporting)
  unfolding run is_success update_from_cli_params
  run_tests test_conf first_shell_dependencies_path =
      configured test_conf first_shell_dependencies_path >>= λ conf.
      run w conf >>= λ report. pure (is_success report, report)

  -- The command `prepare-env`
  unfoldable pub prepare_env_command : String → Option String → Exec Session (Unit {0})
  unfolding prepare_env update_from_cli_params
  prepare_env_command test_conf first_shell_dependencies_path =
      configured test_conf first_shell_dependencies_path >>= prepare_env w
