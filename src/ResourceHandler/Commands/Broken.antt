-- ===== src/ResourceHandler/Commands/Broken.antt =====
-- `execute_command` notes broken dependencies, and nothing else.
use cloudshell_shell_automat.Base.{String, ◌≡◌, Bool, false, ◌||◌, arith}
use cloudshell_shell_automat.Base.Dict.{Dict}
use cloudshell_shell_automat.Exec.{Result, ok, err}
use cloudshell_shell_automat.Api.{Api}
use cloudshell_shell_automat.ResourceHandler.State.{State}
use cloudshell_shell_automat.ResourceHandler.Commands.{is_dependencies_broken, execute_command}

abbrev pub is_broken_result : {A : Type 0} → Result A → Bool
is_broken_result (ok a) = false
is_broken_result (err e) = is_dependencies_broken e

-- After a command, whatever the server replies, the flag of broken dependencies is set if it was
-- set before or the command raised `DependenciesBrokenError`, and every other field of the handler is
-- as before.
pub execute_command-flag :
    (api : Api) (command : String) (kwargs : Dict String) (s : State)
    → (execute_command api command kwargs s).1.self ≡ record (s.self) {
      dependencies_are_broken =
          s.self.dependencies_are_broken
          || is_broken_result (execute_command api command kwargs s).0;
    }
unfolding execute_command
execute_command-flag api command kwargs s = ground arith
