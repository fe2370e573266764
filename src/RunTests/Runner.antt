-- ===== src/RunTests/Runner.antt =====
-- `AutomatedTestsRunner` of shell_tests/run_tests.py: what follows the tests of the sandboxes, which are
-- a parameter here; the parts of them stand in RunTests. And the handlers of servers of
-- shell_tests/helpers/handler_storage.py, which are made where they are configured.
pub mod Returning
use cloudshell_shell_automat.Base.{
  String, ℕ, ◌≡◌, Bool, true, false, not, ◌&&◌, Option, none, some, List, map, is_blank, arith,
  if◌then◌else◌,
}
use cloudshell_shell_automat.Errors.{Exc, keyboard_interrupt}
use cloudshell_shell_automat.Exec.{Exec, Result, ok, err, on, skip, ◌>>=◌, ◌>>◌}
use cloudshell_shell_automat.Api.{Api, Calls}
use cloudshell_shell_automat.Configs.{CloudShellConfig}
use cloudshell_shell_automat.ShellHandler.{CloudShellSmb, ShellDefinition}
use cloudshell_shell_automat.SandboxHandler.{SandboxHandler}
use cloudshell_shell_automat.HandlerStorage as Storage
use cloudshell_shell_automat.HandlerStorage.{Stored, sandbox_handlers}
use cloudshell_shell_automat.Smb.{SmbServer}
use cloudshell_shell_automat.SmbHandler as Smb
use cloudshell_shell_automat.SmbHandler.{SmbHandler}
use cloudshell_shell_automat.SmbHandler.CloudShell.{init_cloudshell, download_logs}
use cloudshell_shell_automat.Report.{Reporting}

-- `HandlerStorage.cs_smb_handler`
unfoldable pub cs_smb_handler : CloudShellConfig → Option SmbHandler
unfolding init_cloudshell
cs_smb_handler conf =
    if not (is_blank conf.os_user) && not (is_blank conf.os_password)
    then some (init_cloudshell conf.os_user conf.os_password conf.host)
    else none

-- The handlers of the server, and the session with the share.
pub record Stage : Type 0 where
  pub stored : Stored
  pub smb : Smb.State

abbrev pub on_stored : {A : Type 0} → Exec Stored A → Exec Stage A
on_stored = on (λ s. s.stored) (λ t s. record s { stored = t })

abbrev on_smb : {A : Type 0} → Exec Smb.State A → Exec Stage A
on_smb = on (λ s. s.smb) (λ t s. record s { smb = t })

abbrev is_interrupt : Result Reporting → Bool
is_interrupt (err keyboard_interrupt) = true
is_interrupt _ = false

abbrev reservation_ids : List SandboxHandler → List String
reservation_ids = map (λ h. h.reservation_id)

-- How `try: m finally: k` ends.
abbrev ends : Result Reporting → Result (Unit {0}) → Result Reporting
ends r (ok u) = r
ends r (err e) = err e

module _ (api : Api) (retry : (Exc → Bool) → Exec Calls (Unit {0}) → Exec Calls (Unit {0}))
    (smb : Option CloudShellSmb) (definition : String → Result ShellDefinition) (share : SmbServer)
    (retry_smb : (A : Type 0) → (Exc → Bool) → Exec Smb.State A → Exec Smb.State A)
    (fuel start_time : ℕ) (has_smb : Bool) where
  -- `_download_logs`, by the result of the tests
  unfoldable pub download_logs_of_run : Result Reporting → Exec Stage (Unit {0})
  unfolding sandbox_handlers download_logs
  download_logs_of_run r =
      if has_smb && not (is_interrupt r)
      then (on_stored (sandbox_handlers api retry smb definition) >>= λ sandboxes.
          on_smb
            (download_logs share retry_smb fuel "cs_logs" start_time (reservation_ids sandboxes)))
      else skip

  finish_stored : Exec Stored (Unit {0})
  finish_stored s = Storage.asking (Storage.finish api retry smb s.self) s

  -- `_run_cs_tests`
  unfoldable pub run_cs_tests : Exec Stage Reporting → Exec Stage Reporting
  unfolding download_logs_of_run finish_stored
  run_cs_tests tests s =
      let (r, s') = tests s in
      let (q, s'') = (download_logs_of_run r >> on_stored finish_stored) s' in (ends r q, s'')

  -- If the tests are interrupted, no logs are downloaded, and the server is asked to clear up what was
  -- made; the interrupt is passed on if that goes well.
  pub run_cs_tests_interrupted :
      (tests : Exec Stage Reporting) (s : Stage)
      → (tests s).0 ≡ err keyboard_interrupt
      → ((run_cs_tests tests s).1.smb ≡ (tests s).1.smb)
        × ((run_cs_tests tests s).1.stored.calls
            ≡ (Storage.finish api retry smb (tests s).1.stored.self (tests s).1.stored.calls).1)
  unfolding run_cs_tests download_logs_of_run finish_stored
  run_cs_tests_interrupted tests s h = ground (arith, h)
