-- ===== src/RunTests/Sandboxes/Reported.antt =====
-- A run over the sandboxes that returns has reported on each of them.
use cloudshell_shell_automat.Base.{
  String, ◌≡◌, refl, ap, sym, ◌∙◌, eq_iff, inl, inr, Bool, true, false, Option, some, Option-cases,
  List, [], ◌∷◌, All, map, length, arith, if◌then◌else◌,
}
use mathlib.Core.Path.{subst}
use mathlib.Core.List.{Perm}
use cloudshell_shell_automat.Base.Shuffle.{shuffle, shuffle-All, shuffle-Perm}
use cloudshell_shell_automat.Errors.{Exc, keyboard_interrupt}
use cloudshell_shell_automat.Exec.{
  Exec, Result, Result-cases, ok, err, pure, ◌>>=◌, ◌>>◌, >>=-eq-ok,
}
use cloudshell_shell_automat.Api.{Api, Calls}
use cloudshell_shell_automat.Configs.{MainConfig}
use cloudshell_shell_automat.ShellHandler.{CloudShellSmb, ShellDefinition}
use cloudshell_shell_automat.SandboxHandler.{SandboxHandler}
use cloudshell_shell_automat.ResourceHandler.State.{ResourceHandler, State, add_to_reservation}
use cloudshell_shell_automat.HandlerStorage.{Stored, asking, resource_handlers, sandbox_handlers}
use cloudshell_shell_automat.Packages.Package.{find_handler}
use cloudshell_shell_automat.Report.{SandboxReport, Reporting}
use cloudshell_shell_automat.RunTests.{run, wait_for_futures}
use cloudshell_shell_automat.RunTests.Complete.{tested, run_reports, wait_for_futures_lem}
use cloudshell_shell_automat.RunTests.Sandboxes.{
  found_handler, outcome_of, with_sandbox_report, find_handlers, add_handler, add_handlers,
  handlers_of, run_sandbox, run_each, run_tests_for_sandboxes, report_of,
}

abbrev pub names_of : List ResourceHandler → List String
names_of = map (λ h. h.conf.name)

find_handler-name :
    (name : String) (hs : List ResourceHandler) (h : ResourceHandler)
    → find_handler name hs ≡ some h
    → h.conf.name ≡ name
unfolding find_handler
find_handler-name name [] h e = absurd (cc e)
find_handler-name name (x ∷ hs) h e = elim (Option-cases (find_handler name hs)) [
  | inr (y, later) ↦ find_handler-name name hs h (ground (arith, later, e))
  | inl missing ↦ ground (arith, missing, e, eq_iff x.conf.name name)
]

found_handler-name :
    (name : String) (hs : List ResourceHandler) (h : ResourceHandler)
    → found_handler name (find_handler name hs) ≡ ok h
    → h.conf.name ≡ name
found_handler-name name hs h e = elim (Option-cases (find_handler name hs)) [
  | inl missing ↦ absurd (ground (arith, missing, e))
  | inr (x, there) ↦ find_handler-name name hs h (ground (arith, there, e))
]

module _ (api : Api) (retry : (Exc → Bool) → Exec Calls (Unit {0}) → Exec Calls (Unit {0}))
    (smb : Option CloudShellSmb) (definition : String → Result ShellDefinition) where
  find_handlers-names :
      (names : List String) (s : Stored) (hs : List ResourceHandler)
      → (find_handlers api retry smb definition names s).0 ≡ ok hs
      → names_of hs ≡ names
  unfolding find_handlers
  find_handlers-names [] s hs e = ground (arith, e)
  find_handlers-names (name ∷ names) s hs e =
      let rest : ResourceHandler → Exec Stored (List ResourceHandler) =
        λ h. find_handlers api retry smb definition names >>= λ hs. pure (h ∷ hs) in
      let pick : List ResourceHandler → Exec Stored ResourceHandler =
        λ all s. (found_handler name (find_handler name all), s) in
      let (all, _, _, e1) =
        >>=-eq-ok (resource_handlers api retry smb definition) (λ all. pick all >>= rest) s e in
      let s1 = (resource_handlers api retry smb definition s).1 in
      let (h, found, _, e2) = >>=-eq-ok (pick all) rest s1 e1 in
      let (hs', others, _, e3) =
        >>=-eq-ok (find_handlers api retry smb definition names) (λ hs. pure (h ∷ hs)) s1 e2 in
      let same = find_handlers-names names s1 hs' (ap (λ r. r.0) others) in
      ground (arith, e3, same, found_handler-name name all h (ap (λ r. r.0) found))

  -- A handler that is tested knows the sandbox.
  abbrev pub Placed : SandboxHandler → List ResourceHandler → Type 0
  Placed sandbox = All (λ h. h.conf.tests_conf.run_tests ≡ true → h.sandbox ≡ some sandbox)

  add_handler_lem :
      (sandbox : SandboxHandler) (h h' : ResourceHandler) (calls : Calls)
      → (add_handler api retry smb definition sandbox h calls).0 ≡ ok h'
      → (h'.conf ≡ h.conf) × (h'.sandbox ≡ some sandbox)
  unfolding add_handler add_to_reservation
  add_handler_lem sandbox h h' calls e = ground (arith, e)

  abbrev add_one : Bool → SandboxHandler → ResourceHandler → Exec Calls ResourceHandler
  add_one b sandbox h = if b then add_handler api retry smb definition sandbox h else pure h

  add_one_lem :
      (b : Bool) (sandbox : SandboxHandler) (h h' : ResourceHandler) (calls : Calls)
      → (add_one b sandbox h calls).0 ≡ ok h'
      → (h'.conf ≡ h.conf) × (b ≡ true → h'.sandbox ≡ some sandbox)
  add_one_lem true sandbox h h' calls e =
      let (same, there) = add_handler_lem sandbox h h' calls e in (same, λ t. there)
  add_one_lem false sandbox h h' calls e = (ground (arith, e), λ t. absurd (cc t))

  add_handlers_lem :
      (sandbox : SandboxHandler) (hs hs' : List ResourceHandler) (calls : Calls)
      → (add_handlers api retry smb definition sandbox hs calls).0 ≡ ok hs'
      → (names_of hs' ≡ names_of hs) × Placed sandbox hs'
  unfolding add_handlers
  add_handlers_lem sandbox [] hs' calls e =
      let none_there : [] ≡ hs' = ground (arith, e) in
      subst (λ xs. (names_of xs ≡ []) × Placed sandbox xs) none_there (refl, tt)
  add_handlers_lem sandbox (h ∷ hs) hs' calls e =
      let b = h.conf.tests_conf.run_tests in
      let rest = add_handlers api retry smb definition sandbox hs in
      let (x, first, _, e1) =
        >>=-eq-ok (add_one b sandbox h) (λ x. rest >>= λ xs. pure (x ∷ xs)) calls e in
      let calls' = (add_one b sandbox h calls).1 in
      let (xs, others, _, e2) = >>=-eq-ok rest (λ xs. pure (x ∷ xs)) calls' e1 in
      let (same, placed) = add_one_lem b sandbox h x calls (ap (λ r. r.0) first) in
      let (names, all_placed) = add_handlers_lem sandbox hs xs calls' (ap (λ r. r.0) others) in
      let whole : x ∷ xs ≡ hs' = ground (arith, e2) in
      subst (λ ys. (names_of ys ≡ names_of (h ∷ hs)) × Placed sandbox ys) whole
        (
          ground (arith, same, names),
          (λ t. placed (ap (λ c. c.tests_conf.run_tests) (sym same) ∙ t), all_placed),
        )

  -- If the handlers of a sandbox are found, then they are those of the configuration's names, in this
  -- order, and each one whose tests are to run was placed in this sandbox.
  pub handlers_of_lem :
      (sandbox : SandboxHandler) (s : Stored) (hs : List ResourceHandler)
      → (handlers_of api retry smb definition sandbox s).0 ≡ ok hs
      → (names_of hs ≡ sandbox.conf.resource_names) × Placed sandbox hs
  unfolding handlers_of
  handlers_of_lem sandbox s hs e =
      let names = sandbox.conf.resource_names in
      let find = find_handlers api retry smb definition names in
      let (found, there, _, e1) =
        >>=-eq-ok find (λ xs. asking (add_handlers api retry smb definition sandbox xs)) s e in
      let (same, placed) = add_handlers_lem sandbox found hs (find s).1.calls e1 in
      (same ∙ find_handlers-names names s found (ap (λ r. r.0) there), placed)

  module _ (stop : Calls → Bool) (test_names : String → List String)
      (run_suite : List (String × String) → Exec State (Bool × String)) (conf : MainConfig) where
    -- The report of a sandbox whose run begins in this state: its name, a success of its own, and as
    -- many reports of resources as there are resources to test among the handlers that
    -- `RunTestsForSandbox.resource_handlers` gives it there. These have the names that its
    -- configuration lists, in this order.
    abbrev pub Reports : SandboxHandler → SandboxReport → Stored → Type 0
    Reports sandbox report s =
        (hs : List ResourceHandler) × ((handlers_of api retry smb definition sandbox s).0 ≡ ok hs)
        × (names_of hs ≡ sandbox.conf.resource_names)
        × Placed sandbox hs
        × (length report.resources_reports ≡ tested hs)
        × (report.name ≡ sandbox.conf.name)
        × (report.sandbox_is_success ≡ true)

    run_sandbox-Reports :
        (sandbox : SandboxHandler) (s : Stored) (report : SandboxReport)
        → (run_sandbox api retry smb definition stop test_names run_suite conf sandbox s).0
          ≡ ok report
        → Reports sandbox report s
    unfolding run_sandbox
    run_sandbox-Reports sandbox s report e =
        let flag : Exec Stored (Unit {0}) =
          λ s. (if stop s.calls then err keyboard_interrupt else ok tt, s) in
        let find = handlers_of api retry smb definition sandbox in
        let name = sandbox.conf.name in
        let test : List ResourceHandler → Exec Stored SandboxReport =
          λ hs. asking (run api stop test_names run_suite conf name hs) in
        let (hs, there, _, e1) = >>=-eq-ok (flag >> find) test s e in
        let (u, _, _, e2) = >>=-eq-ok flag (λ _. find) s (ap (λ r. r.0) there) in
        let (names, placed) = handlers_of_lem sandbox s hs e2 in
        let (count, same, fine) =
          run_reports api stop test_names run_suite conf name hs ((flag >> find) s).1.calls report
            e1 in
        (hs, e2, names, placed, count, same, fine)

    -- Sandboxes that run one after another from this state, and their reports.
    abbrev pub Each : List SandboxHandler → List SandboxReport → Stored → Type 0
    Each [] [] s = Unit
    Each [] (r ∷ rs) s = ⊥
    Each (h ∷ hs) [] s = ⊥
    Each (h ∷ hs) (r ∷ rs) s =
        Reports h r s
        × Each hs rs (run_sandbox api retry smb definition stop test_names run_suite conf h s).1

    outcome_ok :
        (r : Result SandboxReport) (rs : List (Result (Unit {0})))
        → All (λ q. q ≡ ok tt) (outcome_of r ∷ rs)
        → (report : SandboxReport) × (r ≡ ok report)
    outcome_ok (ok report) rs h = (report, refl)
    outcome_ok (err e) rs h = absurd (cc h.0)

    run_each-Each :
        (hs : List SandboxHandler) (s : Stored)
        → All
            (λ q. q ≡ ok tt)
            (run_each api retry smb definition stop test_names run_suite conf hs s).0.0
        → Each hs (run_each api retry smb definition stop test_names run_suite conf hs s).0.1 s
    unfolding run_each
    run_each-Each [] s h = tt
    run_each-Each (x ∷ hs) s h =
        let run_x = run_sandbox api retry smb definition stop test_names run_suite conf x s in
        let others = run_each api retry smb definition stop test_names run_suite conf hs run_x.1 in
        let (report, e) = outcome_ok run_x.0 others.0.0 h in
        subst (λ r. Each (x ∷ hs) (with_sandbox_report r others.0.1) s) (sym e)
          (run_sandbox-Reports x s report e, run_each-Each hs run_x.1 h.1)

    module _ (show : List Exc → String) where
      report_of-ok :
          (rs : List (Result (Unit {0}))) (reports : List SandboxReport) (report : Reporting)
          → report_of api retry smb definition stop test_names run_suite conf show
              (wait_for_futures show rs)
              reports
            ≡ ok report
          → All (λ q. q ≡ ok tt) rs × (report.sandboxes_reports ≡ reports)
      report_of-ok rs reports report e = elim (Result-cases (wait_for_futures show rs)) [
        | inl (u, fine) ↦ ((wait_for_futures_lem show rs).0.0 fine, ground (arith, fine, e))
        | inr (x, bad) ↦ absurd (ground (arith, bad, e))
      ]

      -- If the run over the sandboxes returns a report, then the handlers of the sandboxes were
      -- there, and the report holds one report for each of them, in the order in which they ran, which
      -- is any. Each has the name of its sandbox and is a success of its own, and it has as many
      -- reports of resources as there are resources to test among the handlers that the sandbox was
      -- given when its run began; these were found by the names in the configuration, and those to
      -- test were placed in this sandbox. The runs of two sandboxes are taken not to overlap.
      pub run_tests_for_sandboxes-Each :
          (s : Stored) (report : Reporting)
          → (run_tests_for_sandboxes api retry smb definition stop test_names run_suite conf show
              s).0
            ≡ ok report
          → let (made, t) = sandbox_handlers api retry smb definition s in
            (hs in_turn : List SandboxHandler) × (made ≡ ok hs)
            × Perm in_turn hs
            × Each in_turn report.sandboxes_reports t
      unfolding run_tests_for_sandboxes
      run_tests_for_sandboxes-Each s report e =
          let run_all = run_each api retry smb definition stop test_names run_suite conf in
          let turn : List SandboxHandler → Stored → List SandboxHandler =
            λ hs t. shuffle (api.order t.calls) hs in
          let report_all : List SandboxHandler → Exec Stored Reporting = λ hs t.
            let q = run_all (turn hs t) t in
            (
              report_of api retry smb definition stop test_names run_suite conf show
                  (wait_for_futures show (shuffle (api.order q.1.calls) q.0.0)) q.0.1,
              q.1,
            ) in
          let (hs, there, _, e1) =
            >>=-eq-ok (sandbox_handlers api retry smb definition) report_all s e in
          let t = (sandbox_handlers api retry smb definition s).1 in
          let q = run_all (turn hs t) t in
          let (fine, same) = report_of-ok (shuffle (api.order q.1.calls) q.0.0) q.0.1 report e1 in
          let each =
            run_each-Each (turn hs t) t
              (shuffle-All (λ r. r ≡ ok tt) (api.order q.1.calls) q.0.0 fine) in
          (
            hs,
            turn hs t,
            ap (λ r. r.0) there,
            shuffle-Perm (api.order t.calls) hs,
            subst (λ rs. Each (turn hs t) rs t) (sym same) each,
          )
