-- ===== src/TestCases/Base.antt =====
-- shell_tests/automation_tests/base.py. The search of a regular expression in a text is a parameter.
use cloudshell_shell_automat.Base.{String, ◌<>◌, Bool, Option, none, some, is_blank, if◌then◌else◌}
use cloudshell_shell_automat.Base.Dict.{lookup}
use cloudshell_shell_automat.Errors.{Exc, assertion_error, keyboard_interrupt, is_exception, str_of}
use cloudshell_shell_automat.Exec.{Exec, Result, ok, err, raise, skip}
use cloudshell_shell_automat.Configs.{TestsConfig}
use cloudshell_shell_automat.ResourceHandler.State.{ResourceHandler}

module _ (search : String → String → Bool) where
  -- How a body ended, for `assertRaisesRegex(cls, expected)`.
  abbrev judge : (Exc → Bool) → String → Result (Unit {0}) → Result (Unit {0})
  judge is_cls expected (ok u) = err (assertion_error "not raised")
  judge is_cls expected (err e) =
      if is_cls e
      then if search expected (str_of e) then ok tt else err (assertion_error "does not match")
      else err e

module _ {S : Type 0} where
  -- `assertTrue`
  abbrev pub assert_true : Bool → Exec S (Unit {0})
  assert_true b = if b then skip else raise (assertion_error "False is not true")

  module _ (search : String → String → Bool) where
    -- `with self.assertRaisesRegex(cls, expected): m`
    abbrev pub assert_raises_regex : (Exc → Bool) → String → Exec S (Unit {0}) → Exec S (Unit {0})
    assert_raises_regex is_cls expected m s =
        let (r, s') = m s in (judge search is_cls expected r, s')

    -- `_expect_failure`
    unfoldable pub expect_failure : Exec S (Unit {0}) → String → Exec S (Unit {0})
    unfolding is_exception
    expect_failure func expected_message = assert_raises_regex is_exception expected_message func

    abbrev wrap : Exec S (Unit {0}) → Option String → Exec S (Unit {0})
    wrap func none = func
    wrap func (some reason) = if is_blank reason then func else expect_failure func reason

    -- The method that runs, behind `_add_decorator_for_expect_failed_func`.
    unfoldable pub decorated : String → TestsConfig → Exec S (Unit {0}) → Exec S (Unit {0})
    unfolding expect_failure
    decorated test_name tests_conf func = wrap func (lookup test_name tests_conf.expected_failures)

  -- `BaseTestCase._callTestMethod`, by what the stop flag reads
  unfoldable pub call_test_method : Bool → Exec S (Unit {0}) → Exec S (Unit {0})
  call_test_method stop_flag method = if stop_flag then raise keyboard_interrupt else method

  -- `BaseResourceServiceTestCase._callTestMethod`, by the handler's flag and the stop flag
  unfoldable pub call_resource_test_method : Bool → Bool → Exec S (Unit {0}) → Exec S (Unit {0})
  unfolding call_test_method
  call_resource_test_method dependencies_are_broken stop_flag method =
      if dependencies_are_broken
      then raise (assertion_error "Dependencies are broken")
      else call_test_method stop_flag method

-- A case of `BaseResourceServiceTestCase` as it is made: what unittest knows it by, the method's name
-- and the handler.
pub record ResourceTestCase : Type 0 where
  pub class_name : String
  pub method_name : String
  pub handler : ResourceHandler

-- `f"{type(self).__name__}.{method_name}"`
unfoldable pub test_name_of : ResourceTestCase → String
test_name_of case = case.class_name <> ("." <> case.method_name)

-- `id`, by the id that unittest gives
unfoldable pub id_of : String → ResourceTestCase → String
id_of id case = id <> (" - " <> case.handler.name)

-- `_callTestMethod` on a case, with the method as `__init__` leaves it.
module _ {S : Type 0} (search : String → String → Bool) where
  unfoldable pub call_case : ResourceTestCase → Bool → Exec S (Unit {0}) → Exec S (Unit {0})
  unfolding call_resource_test_method decorated test_name_of
  call_case case stop_flag method =
      call_resource_test_method case.handler.dependencies_are_broken stop_flag
        (decorated search (test_name_of case) case.handler.conf.tests_conf method)
