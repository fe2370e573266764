-- ===== src/HandlerStorage/Failing.antt =====
-- What becomes of the sandboxes when one of them, or none, cannot be created.
use cloudshell_shell_automat.Base.{
  String, ◌≡◌, refl, Bool, Option, Option-cases, none, some, inl, inr, List, map, arith,
}
use cloudshell_shell_automat.Errors.{Exc}
use cloudshell_shell_automat.Exec.{Exec, Result, ok, err}
use cloudshell_shell_automat.Api.{Api, Calls}
use cloudshell_shell_automat.Configs.{SandboxConfig}
use cloudshell_shell_automat.ShellHandler.{ShellDefinition, CloudShellSmb}
use cloudshell_shell_automat.SandboxHandler
use cloudshell_shell_automat.SandboxHandler.{SandboxHandler}
use cloudshell_shell_automat.HandlerStorage.History.{Asked}
use cloudshell_shell_automat.HandlerStorage.Finishing.{ClearGrows, ending, finish-Asked}
use cloudshell_shell_automat.HandlerStorage.{
  HandlerStorage, Stored, collect, created, last_error, finish, settle, sandbox_handlers,
  keep_sandboxes,
}

module _ (api : Api) (retry : (Exc → Bool) → Exec Calls (Unit {0}) → Exec Calls (Unit {0}))
    (smb : Option CloudShellSmb) (definition : String → Result ShellDefinition) (s : Stored) where
  -- The results of the creations, and the calls that they make.
  abbrev pub outcomes : List (Result SandboxHandler) × Calls
  outcomes =
      collect api
        (map (λ (conf : SandboxConfig). SandboxHandler.create api conf 120)
          s.self.conf.sandboxes_conf)
        s.calls

  -- The storage that `finish` works on.
  abbrev pub kept : HandlerStorage
  kept = keep_sandboxes (created outcomes.0) s.self

  -- If sandboxes were not created yet and some creation fails, and if the `finish` behind it returns,
  -- then the last of the exceptions is raised; the server was asked to end the reservation of each
  -- sandbox that was created; and the storage still holds these sandboxes, so that a further `finish`
  -- would end them again. Clearing the offline PyPI is taken to only make further calls.
  pub sandbox_handlers_fails :
      (e : Exc)
      → ClearGrows smb
      → s.self.sandboxes ≡ none
      → last_error outcomes.0 ≡ some e
      → (finish api retry smb kept outcomes.1).0 ≡ ok tt
      → let (r, s') = sandbox_handlers api retry smb definition s in
        (r ≡ err e) × Asked ending (some (created outcomes.0)) s'.calls × (s'.self ≡ kept)
  unfolding sandbox_handlers settle
  sandbox_handlers_fails e law new failed done =
      let asked : Asked ending (some (created outcomes.0))
          (finish api retry smb kept outcomes.1).1 =
        (finish-Asked api retry smb kept outcomes.1 law done).0 in
      let whole : sandbox_handlers api retry smb definition s
          ≡ (err e, record { self = kept; calls = (finish api retry smb kept outcomes.1).1 }) =
        ground arith in
      rw whole (refl, asked, refl)

  -- If `sandbox_handlers` returns, then asking for it again gives the same sandboxes, with no call
  -- and no change.
  pub sandbox_handlers_again :
      (hs : List SandboxHandler)
      → (sandbox_handlers api retry smb definition s).0 ≡ ok hs
      → let s' = (sandbox_handlers api retry smb definition s).1 in
        sandbox_handlers api retry smb definition s' ≡ (ok hs, s')
  unfolding sandbox_handlers settle
  sandbox_handlers_again hs h = elim (Option-cases s.self.sandboxes) [
    | inr (old, p) ↦ ground arith
    | inl new ↦ (elim (Option-cases (last_error outcomes.0)) [
      | inl fine ↦ ground arith
      | inr (x, failed) ↦ absurd (ground arith)
    ])
  ]
