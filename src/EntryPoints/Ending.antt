-- ===== src/EntryPoints/Ending.antt =====
-- However a run goes on Do, what was made there is ended.
use cloudshell_shell_automat.Base.{◌≡◌, ap, sym, ◌∙◌, inl, inr, true, some, All, arith}
use mathlib.Core.Path.{subst}
use cloudshell_shell_automat.Exec.{Exec, Result, Result-cases, ok, finally, ◌>>◌}
use cloudshell_shell_automat.Configs.{MainConfig, DoConfig, CsOnDoConfig}
use cloudshell_shell_automat.SandboxHandler.{SandboxHandler}
use cloudshell_shell_automat.HandlerStorage.History.{Made}
use cloudshell_shell_automat.HandlerStorage.Finishing.{ending}
use cloudshell_shell_automat.DoHandler.Apps.{Doing}
use cloudshell_shell_automat.DoHandler.Apps as Do
use cloudshell_shell_automat.DoHandler.Apps.Ended.{finish-ends_cs, finish-ends_apps}
use cloudshell_shell_automat.RunTests.Alive.{check_all_resources_is_alive}
use cloudshell_shell_automat.EntryPoints.{
  World, Session, on_calls, run_body, enter_do, exit_do, in_context, run, test_cloudshell,
}

module _ {S A B : Type 0} where
  >>-ok : (m : Exec S A) (k : Exec S B) (s : S) {a : A} → (m s).0 ≡ ok a → (m >> k) s ≡ k (m s).1
  >>-ok m k s h = ground arith

  finally-last : (m : Exec S A) (k : Exec S B) (s : S) → (finally m k s).1 ≡ (k (m s).1).1
  finally-last m k s = elim (Result-cases (k (m s).1).0) [
    | inl (b, e) ↦ ground (arith, e)
    | inr (x, e) ↦ ground (arith, e)
  ]

module _ (w : World) (conf : MainConfig) where
  -- The body asks for more, and takes nothing from what Do made.
  run_body-keeps :
      (s : Session)
      → ((run_body w conf s).1.doing.cs_sandbox ≡ s.doing.cs_sandbox)
        × ((run_body w conf s).1.doing.app_sandboxes ≡ s.doing.app_sandboxes)
  unfolding run_body test_cloudshell
  run_body-keeps s = ground arith

  module _ (d : DoConfig) (s : Session) (on_do : conf.do_conf ≡ some d) where
    -- Behind the check of the hosts, and behind the entry.
    abbrev pub checked : Result (Unit {0}) × Session
    checked = on_calls (check_all_resources_is_alive w.network conf) s

    abbrev pub entered : Result (Unit {0}) × Session
    entered = enter_do w d checked.1

    -- Behind the body of the `with` statement.
    abbrev pub left : Session
    left = (run_body w conf entered.1).1

    run_exits : checked.0 ≡ ok tt → entered.0 ≡ ok tt → (run w conf s).1 ≡ (exit_do w d left).1
    unfolding run in_context
    run_exits alive there =
        let body = run_body w conf in
        ap (λ r. r.1)
          (>>-ok (on_calls (check_all_resources_is_alive w.network conf))
              (in_context w conf.do_conf body) s alive
            ∙ ap (λ o. in_context w o body checked.1) on_do
            ∙ >>-ok (enter_do w d) (finally body (exit_do w d)) checked.1 there)
        ∙ finally-last body (exit_do w d) entered.1

    module _ (alive : checked.0 ≡ ok tt) (there : entered.0 ≡ ok tt) where
      -- If all hosts answer and Do is entered, then in whatever way the run ends, with a report or with
      -- an exception, and whatever else the servers reply: Do was asked to end the sandbox of the
      -- CloudShell that was created there, if it is to be deleted.
      pub run-ends_cs :
          (c : CsOnDoConfig) (sandbox : SandboxHandler)
          → d.cs_on_do_conf ≡ some c
          → c.delete_cs ≡ true
          → entered.1.doing.cs_sandbox ≡ some sandbox
          → Made (ending sandbox) (run w conf s).1.doing.calls
      unfolding exit_do
      run-ends_cs c sandbox is_c delete made =
          let api = w.server_of d.base in
          let held = (run_body-keeps entered.1).0 ∙ made in
          let ended = finish-ends_cs api c left.doing sandbox delete held in
          let asked =
            subst (λ o. Made (ending sandbox) (Do.finish api o left.doing).1.calls) (sym is_c)
              ended in
          subst (λ (t : Session). Made (ending sandbox) t.doing.calls) (sym (run_exits alive there))
            asked

      -- If all hosts answer, Do is entered and left without an exception, then in whatever way the
      -- tests end, Do was asked to end the sandbox of each networking app.
      pub run-ends_apps :
          (exit_do w d left).0 ≡ ok tt
          → All (λ h. Made (ending h) (run w conf s).1.doing.calls) entered.1.doing.app_sandboxes
      unfolding exit_do
      run-ends_apps fine =
          let api = w.server_of d.base in
          let ended = finish-ends_apps api d.cs_on_do_conf left.doing fine in
          let kept =
            subst (All (λ h. Made (ending h) (exit_do w d left).1.doing.calls))
              (run_body-keeps entered.1).1 ended in
          subst
            (λ (t : Session).
              All (λ h. Made (ending h) t.doing.calls) entered.1.doing.app_sandboxes)
            (sym (run_exits alive there)) kept
