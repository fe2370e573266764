-- ===== src/DoHandler/Apps/Ended.antt =====
-- What `finish` of Do asks for.
use cloudshell_shell_automat.Base.{
  ◌≡◌, refl, sym, inl, inr, true, false, Option, none, some, All, arith,
}
use mathlib.Core.Path.{subst}
use cloudshell_shell_automat.Exec.{Exec, Result, Result-cases, ok, >>=-eq-ok}
use cloudshell_shell_automat.Api.{Api, Call, Calls}
use cloudshell_shell_automat.Configs.{CsOnDoConfig}
use cloudshell_shell_automat.SandboxHandler
use cloudshell_shell_automat.SandboxHandler.{SandboxHandler}
use cloudshell_shell_automat.HandlerStorage.History.{Made, Grows, for_each-Grows, for_each-Made}
use cloudshell_shell_automat.HandlerStorage.Finishing.{
  ending, end_reservation-Grows, end_reservation-Made,
}
use cloudshell_shell_automat.DoHandler.Creator as Creator
use cloudshell_shell_automat.DoHandler.Apps.{Doing, finish, finish_cs, finish_apps}

module _ (api : Api) where
  abbrev end_app : SandboxHandler → Exec Calls (Unit {0})
  end_app h = SandboxHandler.end_reservation api h false

  end_app-Grows : (h : SandboxHandler) → Grows (end_app h)
  unfolding SandboxHandler.end_reservation
  end_app-Grows h = end_reservation-Grows api h.reservation_id false

  end_app-Made : (h : SandboxHandler) (calls : Calls) → Made (ending h) (end_app h calls).1
  unfolding SandboxHandler.end_reservation
  end_app-Made h = end_reservation-Made api h.reservation_id false

  finish_apps-Grows : (s : Doing) (c : Call) → Made c s.calls → Made c (finish_apps api s).1.calls
  unfolding finish_apps
  finish_apps-Grows s = for_each-Grows end_app end_app-Grows s.app_sandboxes s.calls

  finish_cs-Made :
      (conf : CsOnDoConfig) (s : Doing) (sandbox : SandboxHandler)
      → conf.delete_cs ≡ true
      → s.cs_sandbox ≡ some sandbox
      → Made (ending sandbox) (finish_cs api (some conf) s).1.calls
  unfolding finish_cs Creator.finish
  finish_cs-Made conf s sandbox delete there = rw (delete, there) (end_app-Made sandbox s.calls)

  -- The CloudShell's sandbox is asked to end, whatever the server replies.
  pub finish-ends_cs :
      (conf : CsOnDoConfig) (s : Doing) (sandbox : SandboxHandler)
      → conf.delete_cs ≡ true
      → s.cs_sandbox ≡ some sandbox
      → Made (ending sandbox) (finish api (some conf) s).1.calls
  unfolding finish
  finish-ends_cs conf s sandbox delete there =
      let made = finish_cs-Made conf s sandbox delete there in
      elim (Result-cases (finish_cs api (some conf) s).0) [
        | inl (u, e) ↦
            rw (e, Made) (finish_apps-Grows (finish_cs api (some conf) s).1 (ending sandbox) made)
        | inr (x, e) ↦ rw (e, Made) made
      ]

  finish_cs-app_sandboxes :
      (conf : Option CsOnDoConfig) (s : Doing)
      → (finish_cs api conf s).1.app_sandboxes ≡ s.app_sandboxes
  unfolding finish_cs
  finish_cs-app_sandboxes none s = refl
  finish_cs-app_sandboxes (some conf) s = ground arith

  apps_ended :
      (s : Doing)
      → (finish_apps api s).0 ≡ ok tt
      → All (λ h. Made (ending h) (finish_apps api s).1.calls) s.app_sandboxes
  unfolding finish_apps
  apps_ended s h = for_each-Made end_app ending end_app-Grows end_app-Made s.app_sandboxes s.calls h

  -- If it returns, then so is each sandbox of an app.
  pub finish-ends_apps :
      (conf : Option CsOnDoConfig) (s : Doing)
      → (finish api conf s).0 ≡ ok tt
      → All (λ h. Made (ending h) (finish api conf s).1.calls) s.app_sandboxes
  unfolding finish
  finish-ends_apps conf s h =
      let (u, _, e, fine) = >>=-eq-ok (finish_cs api conf) (λ _. finish_apps api) s h in
      let t = (finish_cs api conf s).1 in
      let ended = apps_ended t fine in
      let kept =
        subst (All (λ h. Made (ending h) (finish_apps api t).1.calls))
          (finish_cs-app_sandboxes conf s) ended in
      subst
        (λ (r : Result (Unit {0}) × Doing). All (λ h. Made (ending h) r.1.calls) s.app_sandboxes)
        (sym e) kept
