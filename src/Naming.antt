-- ===== src/Naming.antt =====
-- shell_tests/helpers/cs_helpers.py: `generate_new_resource_name`. Names are taken to be ASCII and
-- of one line, as in the regular expression's `\d` and `.`.
pub mod Sequence
use cloudshell_shell_automat.Base.{
  String, ℕ, ◌+◌, ◌<>◌, Bool, not, ◌&&◌, Option, none, some, is_blank, all_digits, digits_value,
  break_last, decimal, if◌then◌else◌,
}

-- The groups `name` and `v` of `^(?P<name>.+)-(?P<v>\d+)$`.
abbrev pub has_version : String → String → Bool
has_version name v = not (is_blank name) && (not (is_blank v) && all_digits v)

abbrev split_version : String → Option (String × String) → String × ℕ
split_version whole none = (whole, 0)
split_version whole (some (name, v)) =
    if has_version name v then (name, digits_value 0 v) else (whole, 0)

unfoldable pub match_version : String → String × ℕ
unfolding all_digits digits_value break_last
match_version name = split_version name (break_last b'-' name)

unfoldable pub generate_new_resource_name : String → String
unfolding match_version decimal
generate_new_resource_name name =
    let (base, version) = match_version name in base <> ("-" <> decimal (version + 1))
