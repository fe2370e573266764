-- ===== src/Configs/Tests/Merging.antt =====
-- What a resource's tests configuration is after the merge.
use cloudshell_shell_automat.Base.{String, ◌≡◌, refl, some, arith, or_else}
use cloudshell_shell_automat.Base.Dict.{lookup, HasUniqueKeys, lookup-update_unique}
use cloudshell_shell_automat.Configs.{TestsConfig}
use cloudshell_shell_automat.Configs.Tests.{iadd}

-- If `self` has no expected failure twice, then after `self += other` a test's expected failure is
-- the one of `self`, or the one of `other` where `self` has none; `run_tests` is the explicit
-- choice of `self`, or else that of `other`, or else what it was; and the explicit choice of `self`
-- stays.
pub iadd_lem :
    (self other : TestsConfig) (test : String)
    → HasUniqueKeys self.expected_failures
    → (lookup test (iadd self other).expected_failures
        ≡ or_else (lookup test self.expected_failures) (lookup test other.expected_failures))
      × (some (iadd self other).run_tests
          ≡ or_else self.original_run_tests
              (or_else other.original_run_tests (some self.run_tests)))
      × ((iadd self other).original_run_tests ≡ self.original_run_tests)
unfolding iadd
iadd_lem self other test h =
    (lookup-update_unique test other.expected_failures self.expected_failures h, ground arith, refl)
