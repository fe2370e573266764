-- ===== src/Configs/Tests.antt =====
-- `TestsConfig.__iadd__`, and the merge of a shell's tests configuration into those of its resources.
pub mod Merging
use cloudshell_shell_automat.Base.{
  String, ◌≡◌, refl, Bool, true, false, Option, none, some, List, [], ◌∷◌, ◌==◌, first, arith,
  if◌then◌else◌,
}
use cloudshell_shell_automat.Base.Dict.{Dict, update}
use cloudshell_shell_automat.Configs.{TestsConfig, ShellConfig, ResourceConfig}

abbrev merged_run_tests : Option Bool → Option Bool → Bool → Bool
merged_run_tests (some own) other now = own
merged_run_tests none (some theirs) now = theirs
merged_run_tests none none now = now

unfoldable pub iadd : TestsConfig → TestsConfig → TestsConfig
iadd self other = record self {
  expected_failures = update other.expected_failures self.expected_failures;
  run_tests = merged_run_tests self.original_run_tests other.original_run_tests self.run_tests;
}

abbrev add_found : ResourceConfig → Option ShellConfig → ResourceConfig
add_found conf none = conf
add_found conf (some shell) = record conf { tests_conf = iadd conf.tests_conf shell.tests_conf }

-- `MainConfig._merge_tests_config`, for one resource: the first shell with the resource's shell name.
unfoldable pub merge_tests_config : List ShellConfig → ResourceConfig → ResourceConfig
unfolding iadd
merge_tests_config shells conf =
    add_found conf (first (λ (shell : ShellConfig). shell.name == conf.shell_name) shells)
