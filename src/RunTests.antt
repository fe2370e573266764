-- ===== src/RunTests.antt =====
-- shell_tests/run_tests_for_sandbox.py: `RunTestsForSandbox`, and `_wait_for_futures` of
-- shell_tests/run_tests.py. The futures of a pool run one after another. Parameters: what the stop
-- flag, which another thread sets, reads at each time; unittest's loader; and the run of a suite,
-- which is unittest's and calls the bodies of the tests. `family` is asked for once in a run.
pub mod Complete
pub mod Alive
pub mod Runner
pub mod Sandboxes
use cloudshell_shell_automat.Base.{
  String, ◌<>◌, Bool, true, false, Option, none, some, List, [], ◌∷◌, ◌++◌, if◌then◌else◌,
}
use cloudshell_shell_automat.Base.Shuffle.{shuffle}
use cloudshell_shell_automat.Errors.{Exc, keyboard_interrupt, base_automation, is_exception}
use cloudshell_shell_automat.Exec.{
  Exec, Result, ok, err, pure, raise, catch, skip, modify, on, when, ◌>>=◌, ◌>>◌,
}
use cloudshell_shell_automat.Api.{Api, Calls, ResourceInfo, ResourceHead, head}
use cloudshell_shell_automat.Configs.{MainConfig}
use cloudshell_shell_automat.ResourceHandler.State.{
  ResourceHandler, State, device_type, get_details, get_commands,
}
use cloudshell_shell_automat.ResourceHandler.Commands.{run_resource_commands}
use cloudshell_shell_automat.ResourceHandler.Autoload.{autoload_if_needed}
use cloudshell_shell_automat.TestSuite.Selection.{find_table, get_test_suite}
use cloudshell_shell_automat.Report.{ResourceReport, SandboxReport, Reporting}

-- A resource under test, and its report, if there is one.
pub record Running : Type 0 where
  pub state : State
  pub report : Option ResourceReport

abbrev pub resource : {A : Type 0} → Exec State A → Exec Running A
resource = on (λ r. r.state) (λ s r. record r { state = s })

-- A sandbox under test: the calls made so far, and the reports of its resources.
pub record Sandbox : Type 0 where
  pub calls : Calls
  pub reports : List ResourceReport

abbrev pub with_report : List ResourceReport → Option ResourceReport → List ResourceReport
with_report rs none = rs
with_report rs (some r) = rs ++ (r ∷ [])

-- `future.result()` of each
unfoldable pub results : List (Result (Unit {0})) → Result (Unit {0})
results [] = ok tt
results (ok u ∷ rs) = results rs
results (err e ∷ rs) = err e

module _ (api : Api) (stop : Calls → Bool) (test_names : String → List String)
    (run_suite : List (String × String) → Exec State (Bool × String)) (conf : MainConfig) where
  -- `_is_stop_set`
  unfoldable pub is_stop_set : Exec Running (Unit {0})
  is_stop_set r = if stop r.state.calls then (err keyboard_interrupt, r) else (ok tt, r)

  -- `_run_resource_tests`
  unfoldable pub run_resource_tests : Exec State ResourceReport
  run_resource_tests = do
    info ← get_details api
    (λ s. (find_table (head info).family (device_type s.self), s))
    commands ← get_commands api
    suite ←
        (λ s. (get_test_suite test_names conf (head info).family (device_type s.self) commands, s))
    outcome ← run_suite suite
    (λ s. (
      ok (record {
        name = s.self.name;
        ip = s.self.conf.device_ip;
        device_type = device_type s.self;
        family = (head info).family;
        is_success = outcome.0;
        test_result = outcome.1;
      }),
      s,
    ))

  test_it : Exec Running (Unit {0})
  unfolding run_resource_tests is_stop_set
  test_it = do
    report ← resource run_resource_tests
    modify (λ r. record r { report = some report })
    is_stop_set
    (λ r. resource (run_resource_commands api r.state.self.conf.teardown_commands) r)

  -- An Autoload for the other resources of a sandbox; an `Exception` is logged only.
  load_it : Exec Running (Unit {0})
  unfolding is_exception
  load_it =
      catch (resource (autoload_if_needed api) >> skip)
        (λ e. if is_exception e then skip else raise e)

  -- `_execute_resource_tests`
  unfoldable pub execute_resource_tests : Exec Running (Unit {0})
  unfolding test_it load_it is_stop_set
  execute_resource_tests start =
      (is_stop_set
          >> resource (run_resource_commands api start.state.self.conf.setup_commands)
          >> is_stop_set
          >> (if start.state.self.conf.tests_conf.run_tests then test_it else load_it))
        start

  -- The futures of the resources, to their ends.
  unfoldable pub execute_all : List ResourceHandler → Sandbox → List (Result (Unit {0})) × Sandbox
  unfolding execute_resource_tests
  execute_all [] s = ([], s)
  execute_all (h ∷ hs) s =
      let (r, after) =
        execute_resource_tests
          (record { state = record { self = h; calls = s.calls }; report = none }) in
      let (rs, s') =
        execute_all hs
          (record { calls = after.state.calls; reports = with_report s.reports after.report }) in
      (r ∷ rs, s')

  -- `run`, behind its first look at the flag and with the handlers at hand: the report of the sandbox,
  -- which is added to the whole one, or an exception. A set of futures has any order, in which the
  -- resources are tested and, apart from that, in which their results are asked for.
  unfoldable pub run : String → List ResourceHandler → Calls → Result SandboxReport × Calls
  unfolding execute_all results shuffle
  run name handlers calls =
      let in_turn = shuffle (api.order calls) handlers in
      let (rs, s) = execute_all in_turn (record { calls = calls; reports = [] }) in
      elim (results (shuffle (api.order s.calls) rs)) [
        | err e ↦ (err e, s.calls)
        | ok u ↦ (
          ok (record {
            name = name;
            sandbox_is_success = true;
            test_result = "";
            resources_reports = s.reports;
            deployment_resources_reports = [];
            services_reports = [];
          }),
          s.calls,
        )
      ]

-- The exceptions of the futures.
unfoldable pub exceptions_of : List (Result (Unit {0})) → List Exc
exceptions_of [] = []
exceptions_of (ok u ∷ rs) = exceptions_of rs
exceptions_of (err e ∷ rs) = e ∷ exceptions_of rs

-- The end of `_wait_for_futures`. How Python shows a set of exceptions is a parameter.
module _ (show : List Exc → String) where
  raise_of : List Exc → Result (Unit {0})
  raise_of [] = ok tt
  raise_of (keyboard_interrupt ∷ []) = err keyboard_interrupt
  raise_of es = err (base_automation ("Sandbox threads finished with exceptions: " <> show es))

  unfoldable pub wait_for_futures : List (Result (Unit {0})) → Result (Unit {0})
  unfolding exceptions_of raise_of
  wait_for_futures rs = raise_of (exceptions_of rs)
