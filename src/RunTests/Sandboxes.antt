-- ===== src/RunTests/Sandboxes.antt =====
-- `RunTestsForSandbox` with the choice of its handlers, of shell_tests/run_tests_for_sandbox.py, and
-- `_run_tests_for_sandboxes` of shell_tests/run_tests.py. The sandboxes run one after another, in any
-- order, and a set has their futures in any order. What a run changes in a handler it keeps to itself: behind it only the name is
-- read, which no test changes. The tests' stop flag is an oracle, as in RunTests.
pub mod Reported
pub mod Kept
use cloudshell_shell_automat.Base.{
  String, Bool, true, false, Option, none, some, List, [], ◌∷◌, if◌then◌else◌,
}
use cloudshell_shell_automat.Base.Shuffle.{shuffle}
use cloudshell_shell_automat.Errors.{Exc, keyboard_interrupt, key_error}
use cloudshell_shell_automat.Exec.{Exec, Result, ok, err, pure, ◌>>=◌, ◌>>◌}
use cloudshell_shell_automat.Api.{Api, Calls}
use cloudshell_shell_automat.Configs.{MainConfig}
use cloudshell_shell_automat.ShellHandler.{CloudShellSmb, ShellDefinition}
use cloudshell_shell_automat.SandboxHandler.{SandboxHandler}
use cloudshell_shell_automat.ResourceHandler.State.{ResourceHandler, State, add_to_reservation}
use cloudshell_shell_automat.HandlerStorage.{Stored, asking, resource_handlers, sandbox_handlers}
use cloudshell_shell_automat.Packages.Package.{find_handler}
use cloudshell_shell_automat.Report.{SandboxReport, Reporting}
use cloudshell_shell_automat.RunTests.{run, wait_for_futures}

-- `resource_handlers_dict[name]`
abbrev found_handler : String → Option ResourceHandler → Result ResourceHandler
found_handler name none = err (key_error name)
found_handler name (some h) = ok h

-- How a future ended, for `_wait_for_futures`.
abbrev pub outcome_of : Result SandboxReport → Result (Unit {0})
outcome_of (ok r) = ok tt
outcome_of (err e) = err e

abbrev pub with_sandbox_report : Result SandboxReport → List SandboxReport → List SandboxReport
with_sandbox_report (ok r) rs = r ∷ rs
with_sandbox_report (err e) rs = rs

module _ (api : Api) (retry : (Exc → Bool) → Exec Calls (Unit {0}) → Exec Calls (Unit {0}))
    (smb : Option CloudShellSmb) (definition : String → Result ShellDefinition) where
  -- The handlers by their names. The property of the storage is read for each.
  unfoldable pub find_handlers : List String → Exec Stored (List ResourceHandler)
  unfolding resource_handlers find_handler
  find_handlers [] = pure []
  find_handlers (name ∷ names) = resource_handlers api retry smb definition >>= λ all.
      (λ s. (found_handler name (find_handler name all), s)) >>= λ h.
      find_handlers names >>= λ hs. pure (h ∷ hs)

  unfoldable pub add_handler : SandboxHandler → ResourceHandler → Exec Calls ResourceHandler
  unfolding add_to_reservation
  add_handler sandbox h calls =
      let (r, s) = add_to_reservation api sandbox (record { self = h; calls = calls }) in
      elim r [ ok u ↦ (ok s.self, s.calls) | err e ↦ (err e, s.calls) ]

  -- Each handler whose tests are to run is added to the reservation.
  unfoldable pub add_handlers :
      SandboxHandler → List ResourceHandler → Exec Calls (List ResourceHandler)
  unfolding add_handler
  add_handlers sandbox [] = pure []
  add_handlers sandbox (h ∷ hs) =
      (if h.conf.tests_conf.run_tests then add_handler sandbox h else pure h) >>= λ h'.
      add_handlers sandbox hs >>= λ hs'. pure (h' ∷ hs')

  -- `RunTestsForSandbox.resource_handlers`
  unfoldable pub handlers_of : SandboxHandler → Exec Stored (List ResourceHandler)
  unfolding find_handlers add_handlers
  handlers_of sandbox =
      find_handlers sandbox.conf.resource_names >>= λ hs. asking (add_handlers sandbox hs)

  module _ (stop : Calls → Bool) (test_names : String → List String)
      (run_suite : List (String × String) → Exec State (Bool × String)) (conf : MainConfig) where
    -- `run`, with the report that it adds to the whole one
    unfoldable pub run_sandbox : SandboxHandler → Exec Stored SandboxReport
    unfolding handlers_of run
    run_sandbox sandbox =
        (λ s. (if stop s.calls then err keyboard_interrupt else ok tt, s))
        >> handlers_of sandbox
        >>= λ hs. asking (run api stop test_names run_suite conf sandbox.conf.name hs)

    -- The futures, to their ends, and the reports.
    unfoldable pub run_each :
        List SandboxHandler → Stored → (List (Result (Unit {0})) × List SandboxReport) × Stored
    unfolding run_sandbox
    run_each [] s = (([], []), s)
    run_each (h ∷ hs) s =
        let (r, s') = run_sandbox h s in
        let ((rs, reports), s'') = run_each hs s' in
        ((outcome_of r ∷ rs, with_sandbox_report r reports), s'')

    -- How Python shows a set of exceptions is a parameter. All futures have ended at the first wait, so
    -- that the wait behind an interrupt ends in the same way.
    module _ (show : List Exc → String) where
      abbrev report_of : Result (Unit {0}) → List SandboxReport → Result Reporting
      report_of (ok u) reports = ok (record { sandboxes_reports = reports })
      report_of (err e) reports = err e

      unfoldable pub run_tests_for_sandboxes : Exec Stored Reporting
      unfolding sandbox_handlers run_each wait_for_futures shuffle
      run_tests_for_sandboxes = sandbox_handlers api retry smb definition >>= λ hs s.
          let ((rs, reports), s') = run_each (shuffle (api.order s.calls) hs) s in
          (report_of (wait_for_futures show (shuffle (api.order s'.calls) rs)) reports, s')
