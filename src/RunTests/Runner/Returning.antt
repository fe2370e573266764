-- ===== src/RunTests/Runner/Returning.antt =====
-- What a run on a CloudShell that returns has done.
use cloudshell_shell_automat.Base.{
  String, ℕ, ◌≡◌, refl, ap, inl, inr, Bool, Bool-cases, not, ◌&&◌, Option, some, List, arith,
}
use cloudshell_shell_automat.Errors.{Exc}
use cloudshell_shell_automat.Exec.{Exec, Result, ok, err, ◌>>◌, >>=-eq-ok}
use cloudshell_shell_automat.Api.{Api, Calls}
use cloudshell_shell_automat.ShellHandler.{CloudShellSmb, ShellDefinition}
use cloudshell_shell_automat.SandboxHandler.{SandboxHandler}
use cloudshell_shell_automat.HandlerStorage as Storage
use cloudshell_shell_automat.HandlerStorage.{Stored, sandbox_handlers}
use cloudshell_shell_automat.Smb.{SmbServer}
use cloudshell_shell_automat.SmbHandler as Smb
use cloudshell_shell_automat.Report.{Reporting}
use cloudshell_shell_automat.RunTests.Runner.{
  Stage, on_stored, is_interrupt, ends, download_logs_of_run, finish_stored, run_cs_tests,
}

ends-ok :
    (r : Result Reporting) (q : Result (Unit {0})) (report : Reporting)
    → ends r q ≡ ok report
    → (r ≡ ok report) × (q ≡ ok tt)
ends-ok r (ok u) report h = (h, refl)
ends-ok r (err e) report h = absurd (cc h)

module _ (api : Api) (retry : (Exc → Bool) → Exec Calls (Unit {0}) → Exec Calls (Unit {0}))
    (smb : Option CloudShellSmb) (definition : String → Result ShellDefinition) (share : SmbServer)
    (retry_smb : (A : Type 0) → (Exc → Bool) → Exec Smb.State A → Exec Smb.State A)
    (fuel start_time : ℕ) (has_smb : Bool) where
  abbrev pub download : Result Reporting → Exec Stage (Unit {0})
  download = download_logs_of_run api retry smb definition share retry_smb fuel start_time has_smb

  -- The download of the logs makes no sandbox if there is a list of them.
  pub download-sandboxes :
      (r : Result Reporting) (t : Stage) (hs : List SandboxHandler)
      → t.stored.self.sandboxes ≡ some hs
      → (download r t).1.stored.self.sandboxes ≡ some hs
  unfolding download_logs_of_run sandbox_handlers
  download-sandboxes r t hs h = elim (Bool-cases (has_smb && not (is_interrupt r))) [
    | inl logs ↦ ground (arith, logs, h)
    | inr none_there ↦ ground (arith, none_there, h)
  ]

  -- A run that returns a report is one of tests that did, and then of a clearing up that returns.
  pub run_cs_tests-returns :
      (tests : Exec Stage Reporting) (s : Stage) (report : Reporting)
      → (run_cs_tests api retry smb definition share retry_smb fuel start_time has_smb tests s).0
        ≡ ok report
      → let t = (download (tests s).0 (tests s).1).1.stored in
        ((tests s).0 ≡ ok report)
        × ((Storage.finish api retry smb t.self t.calls).0 ≡ ok tt)
        × ((run_cs_tests api retry smb definition share retry_smb fuel start_time has_smb tests
              s).1.stored.calls
            ≡ (Storage.finish api retry smb t.self t.calls).1)
  unfolding run_cs_tests finish_stored
  run_cs_tests-returns tests s report h =
      let clear =
        on_stored
          (finish_stored api retry smb definition share retry_smb fuel start_time has_smb) in
      let (r, t) = tests s in
      let (fine, cleared) = ends-ok r ((download r >> clear) t).0 report h in
      let (u, _, e, done) = >>=-eq-ok (download r) (λ _. clear) t cleared in
      (fine, done, ap (λ q. q.1.stored.calls) e)
