-- ===== src/RunTests/Complete.antt =====
-- A run that ends well has reported on every resource.
use cloudshell_shell_automat.Base.{
  String, ℕ, zero, suc, ◌+◌, ◌≡◌, ◌∙◌, ap, ◌↔◌, refl, Bool, Bool-cases, true, false, not, none,
  Option-cases, is_none, inl, inr, List, [], ◌∷◌, All, length, length-append, arith, if◌then◌else◌,
}
use mathlib.Core.Path.{subst}
use cloudshell_shell_automat.Base.Shuffle.{insert_at, shuffle, shuffle-All}
use cloudshell_shell_automat.Errors.{Exc, keyboard_interrupt}
use cloudshell_shell_automat.Exec.{Exec, Result, Result-cases, ok, err, ◌>>◌}
use cloudshell_shell_automat.Api.{Api, Calls}
use cloudshell_shell_automat.Configs.{MainConfig}
use cloudshell_shell_automat.ResourceHandler.State.{ResourceHandler, State}
use cloudshell_shell_automat.ResourceHandler.Commands.{run_resource_commands}
use cloudshell_shell_automat.Report.{ResourceReport, SandboxReport}
use cloudshell_shell_automat.RunTests.{
  Running, Sandbox, resource, with_report, results, is_stop_set, test_it, load_it,
  execute_resource_tests, execute_all, run, exceptions_of, raise_of, wait_for_futures,
}

-- The resources that are to be tested.
abbrev pub tested : List ResourceHandler → ℕ
tested [] = 0
tested (h ∷ hs) = (if h.conf.tests_conf.run_tests then 1 else 0) + tested hs

-- The order of the resources does not change how many are to be tested.
tested-insert_at :
    (n : ℕ) (h : ResourceHandler) (hs : List ResourceHandler)
    → tested (insert_at n h hs) ≡ tested (h ∷ hs)
unfolding insert_at
tested-insert_at zero h hs = refl
tested-insert_at (suc n) h [] = refl
tested-insert_at (suc n) h (x ∷ hs) = omega (arith, tested-insert_at n h hs)

tested-shuffle :
    (position : ℕ → ℕ) (hs : List ResourceHandler) → tested (shuffle position hs) ≡ tested hs
unfolding shuffle
tested-shuffle position [] = refl
tested-shuffle position (h ∷ hs) = omega (
  arith,
  tested-insert_at (position (length hs)) h (shuffle position hs),
  tested-shuffle position hs,
)

results-All : (rs : List (Result (Unit {0}))) → (results rs ≡ ok tt) ↔ All (λ r. r ≡ ok tt) rs
unfolding results
results-All [] = (λ h. tt, λ h. refl)
results-All (ok u ∷ rs) = (λ h. (refl, (results-All rs).0 h), λ h. (results-All rs).1 h.1)
results-All (err e ∷ rs) = (λ h. absurd (cc h), λ h. absurd (cc h.0))

results-shuffle :
    (position : ℕ → ℕ) (rs : List (Result (Unit {0})))
    → results (shuffle position rs) ≡ ok tt
    → results rs ≡ ok tt
results-shuffle position rs h =
    (results-All rs).1
      (shuffle-All (λ r. r ≡ ok tt) position rs ((results-All (shuffle position rs)).0 h))

-- A statement that leaves the report alone.
abbrev Keeps : Exec Running (Unit {0}) → Type 0
Keeps m = (s : Running) → (m s).1.report ≡ s.report

>>-Keeps : (m k : Exec Running (Unit {0})) → Keeps m → Keeps k → Keeps (m >> k)
>>-Keeps m k hm hk s = elim (Result-cases (m s).0) [
  | inl (a, e) ↦ ground (arith, hk (m s).1, hm s)
  | inr (x, e) ↦ ground (arith, hm s)
]

-- A statement that returns ends as its last part does.
>>-last :
    (m k : Exec Running (Unit {0})) (s : Running) → ((m >> k) s).0 ≡ ok tt → k (m s).1 ≡ (m >> k) s
>>-last m k s h = elim (Result-cases (m s).0) [
  | inl (a, e) ↦ ground arith
  | inr (x, e) ↦ absurd (ground arith)
]

module _ (api : Api) (stop : Calls → Bool) (test_names : String → List String)
    (run_suite : List (String × String) → Exec State (Bool × String)) (conf : MainConfig) where
  abbrev stop_set : Exec Running (Unit {0})
  stop_set = is_stop_set api stop test_names run_suite conf

  stop_set-Keeps : Keeps stop_set
  unfolding is_stop_set
  stop_set-Keeps s = elim (Bool-cases (stop s.state.calls)) [
    | inl set ↦ rw set refl
    | inr clear ↦ rw clear refl
  ]

  load_it-Keeps : Keeps (load_it api stop test_names run_suite conf)
  unfolding load_it
  load_it-Keeps s = ground arith

  test_it-reports :
      (s : Running)
      → (test_it api stop test_names run_suite conf s).0 ≡ ok tt
      → is_none (test_it api stop test_names run_suite conf s).1.report ≡ false
  unfolding test_it is_stop_set
  test_it-reports s h = ground arith

  abbrev finale : Bool → Exec Running (Unit {0})
  finale b =
      if b
      then test_it api stop test_names run_suite conf
      else load_it api stop test_names run_suite conf

  -- What comes before the tests.
  abbrev before_tests : Running → Exec Running (Unit {0})
  before_tests s =
      stop_set >> resource (run_resource_commands api s.state.self.conf.setup_commands) >> stop_set

  before_tests-Keeps : (s : Running) → Keeps (before_tests s)
  before_tests-Keeps s =
      let setup : Exec Running (Unit {0}) =
        resource (run_resource_commands api s.state.self.conf.setup_commands) in
      >>-Keeps (stop_set >> setup) stop_set (>>-Keeps stop_set setup stop_set-Keeps (λ r. refl))
        stop_set-Keeps

  finale-report :
      (b : Bool) (s : Running)
      → is_none s.report ≡ true
      → (finale b s).0 ≡ ok tt
      → not (is_none (finale b s).1.report) ≡ b
  finale-report true s new h = rw (test_it-reports s h) refl
  finale-report false s new h = rw (load_it-Keeps s, new) refl

  -- If the tests of a resource return, there is a report exactly if there were tests to run.
  execute_report :
      (s : Running)
      → is_none s.report ≡ true
      → (execute_resource_tests api stop test_names run_suite conf s).0 ≡ ok tt
      → not (is_none (execute_resource_tests api stop test_names run_suite conf s).1.report)
        ≡ s.state.self.conf.tests_conf.run_tests
  unfolding execute_resource_tests
  execute_report s new h =
      let b = s.state.self.conf.tests_conf.run_tests in
      let last = >>-last (before_tests s) (finale b) s h in
      subst (λ (t : Result (Unit {0}) × Running). not (is_none t.1.report) ≡ b) last
        (finale-report b (before_tests s s).1 (rw (before_tests-Keeps s s) new)
          (ap (λ t. t.0) last ∙ h))

  length-with_report :
      (h : ResourceHandler) (after : Running) (reports : List ResourceReport)
      → not (is_none after.report) ≡ h.conf.tests_conf.run_tests
      → length (with_report reports after.report)
        ≡ length reports + (if h.conf.tests_conf.run_tests then 1 else 0)
  length-with_report h after reports e = elim (Option-cases after.report) [
    | inl missing ↦ ground arith
    | inr (r, there) ↦ ground (arith, length-append reports (r ∷ []))
  ]

  results-cons :
      (r : Result (Unit {0})) (rs : List (Result (Unit {0})))
      → results (r ∷ rs) ≡ ok tt
      → (r ≡ ok tt) × (results rs ≡ ok tt)
  unfolding results
  results-cons (ok u) rs h = (refl, h)
  results-cons (err e) rs h = absurd (cc h)

  execute_all-length :
      (hs : List ResourceHandler) (s : Sandbox)
      → results (execute_all api stop test_names run_suite conf hs s).0 ≡ ok tt
      → length (execute_all api stop test_names run_suite conf hs s).1.reports
        ≡ length s.reports + tested hs
  unfolding execute_all results
  execute_all-length [] s h = omega arith
  execute_all-length (x ∷ hs) s h =
      let start : Running = record {
        state = record { self = x; calls = s.calls };
        report = none;
      } in
      let (r, after) = execute_resource_tests api stop test_names run_suite conf start in
      let next : Sandbox = record {
        calls = after.state.calls;
        reports = with_report s.reports after.report;
      } in
      let (fine, rest) =
        results-cons r (execute_all api stop test_names run_suite conf hs next).0 h in
      let grown = length-with_report x after s.reports (execute_report start refl fine) in
      omega (arith, execute_all-length hs next rest, grown)

  -- If the run of a sandbox returns, its report is a success of its own, and holds as many reports of
  -- resources as there are resources that are to be tested.
  pub run_reports :
      (name : String) (handlers : List ResourceHandler) (calls : Calls) (report : SandboxReport)
      → (run api stop test_names run_suite conf name handlers calls).0 ≡ ok report
      → (length report.resources_reports ≡ tested handlers)
        × (report.name ≡ name)
        × (report.sandbox_is_success ≡ true)
  unfolding run
  run_reports name handlers calls report h =
      let start : Sandbox = record { calls = calls; reports = [] } in
      let in_turn = shuffle (api.order calls) handlers in
      let (rs, s) = execute_all api stop test_names run_suite conf in_turn start in
      elim (Result-cases (results (shuffle (api.order s.calls) rs))) [
        | inl (u, e) ↦
            let all_fine = results-shuffle (api.order s.calls) rs e in
            ground (
              arith,
              e,
              h,
              execute_all-length in_turn start all_fine,
              tested-shuffle (api.order calls) handlers,
            )
        | inr (x, e) ↦ absurd (ground (arith, e, h))
      ]

exceptions_of-All :
    (rs : List (Result (Unit {0}))) → (exceptions_of rs ≡ []) ↔ All (λ r. r ≡ ok tt) rs
unfolding exceptions_of
exceptions_of-All [] = (λ h. tt, λ h. refl)
exceptions_of-All (ok u ∷ rs) =
    (λ h. (refl, (exceptions_of-All rs).0 h), λ h. (exceptions_of-All rs).1 h.1)
exceptions_of-All (err e ∷ rs) = (λ h. absurd (cc h), λ h. absurd (cc h.0))

raise_of_lem :
    (show : List Exc → String) (es : List Exc)
    → ((raise_of show es ≡ ok tt) ↔ (es ≡ []))
      × ((raise_of show es ≡ err keyboard_interrupt) ↔ (es ≡ keyboard_interrupt ∷ []))
unfolding raise_of
raise_of_lem show [] = ((λ h. refl, λ h. refl), (λ h. absurd (cc h), λ h. absurd (cc h)))
raise_of_lem show (e ∷ []) =
    ((λ h. absurd (ground arith), λ h. absurd (cc h)), (λ h. ground arith, λ h. ground arith))
raise_of_lem show (e ∷ f ∷ es) = (
  (λ h. absurd (ground arith), λ h. absurd (cc h)),
  (λ h. absurd (ground arith), λ h. absurd (cc h)),
)

-- The wait for the sandboxes returns exactly if no future has an exception, and is interrupted
-- exactly if `KeyboardInterrupt` is the only exception.
pub wait_for_futures_lem :
    (show : List Exc → String) (rs : List (Result (Unit {0})))
    → ((wait_for_futures show rs ≡ ok tt) ↔ All (λ r. r ≡ ok tt) rs)
      × ((wait_for_futures show rs ≡ err keyboard_interrupt)
          ↔ (exceptions_of rs ≡ keyboard_interrupt ∷ []))
unfolding wait_for_futures
wait_for_futures_lem show rs =
    let ends = raise_of_lem show (exceptions_of rs) in
    let none_raised = exceptions_of-All rs in
    ((λ h. none_raised.0 (ends.0.0 h), λ h. ends.0.1 (none_raised.1 h)), ends.1)
