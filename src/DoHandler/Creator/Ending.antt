-- ===== src/DoHandler/Creator/Ending.antt =====
-- A CloudShell that does not answer is given back before the next try.
use cloudshell_shell_automat.Base.{◌≡◌, true, false, some, ◌∷◌, arith}
use cloudshell_shell_automat.Exec.{Result, ok, err}
use cloudshell_shell_automat.Api.{Api, Call, Calls}
use cloudshell_shell_automat.CsHandler
use cloudshell_shell_automat.Configs.{CloudShellConfig, CsOnDoConfig}
use cloudshell_shell_automat.SandboxHandler
use cloudshell_shell_automat.SandboxHandler.{SandboxHandler}
use cloudshell_shell_automat.DoHandler.Creator.{
  Creating, is_cs_is_not_alive, start_cs_sandbox, reach_cloudshell, finish, create_cloudshell_once,
}

module _ (api : Api) (conf : CsOnDoConfig) (server_of : CloudShellConfig → Api) (s : Creating)
    (sandbox : SandboxHandler) where
  -- The calls of the start, and what the `try` block does behind it.
  abbrev pub reached : Result CloudShellConfig × Calls
  reached = reach_cloudshell api conf server_of sandbox (start_cs_sandbox api conf s.calls).1

  -- If the sandbox was started, then it is the one that the creator holds. If the CloudShell in it
  -- does not come up, then the try raises, and its last call asks to end this sandbox's reservation;
  -- after any other error, and without one, nothing is asked for behind the attempt to reach it.
  pub create_cloudshell_once_lem :
      (start_cs_sandbox api conf s.calls).0 ≡ ok sandbox
      → let (r, s') = create_cloudshell_once api conf server_of s in
        (s'.sandbox ≡ some sandbox)
        × (s'.calls ≡ (elim reached.0 [
          | ok c ↦ reached.1
          | err e ↦ elim (is_cs_is_not_alive e) [
            | true ↦ Call.end_reservation sandbox.reservation_id ∷ reached.1
            | false ↦ reached.1
          ]
        ]))
  unfolding create_cloudshell_once finish SandboxHandler.end_reservation CsHandler.end_reservation
  create_cloudshell_once_lem started = ground arith
