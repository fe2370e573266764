-- ===== src/Configs/Versions.antt =====
-- The version check of `MainConfig`, and shell_tests/helpers/config_helpers.py. Of what `int` reads
-- only digits are modelled: a part with another character is an error.
pub mod Range
use cloudshell_shell_automat.Base.{
  String, ℕ, ◌<>◌, ◌≡◌, ◌≤◌, ◌<◌, refl, Bool, true, false, not, ◌&&◌, ◌||◌, Option, none, some,
  List, [], ◌∷◌, split, is_blank, all_digits, digits_value, ltb, ◌=?◌, arith, if◌then◌else◌,
}
use cloudshell_shell_automat.Errors.{Exc, value_error}
use cloudshell_shell_automat.Exec.{Result, ok, err}

unfoldable pub to_int : String → Option ℕ
to_int s = if not (is_blank s) && all_digits s then some (digits_value 0 s) else none

abbrev both : Option ℕ → Option (List ℕ) → Option (List ℕ)
both (some n) (some ns) = some (n ∷ ns)
both (some n) none = none
both none ns = none

unfoldable pub to_ints : List String → Option (List ℕ)
to_ints [] = some []
to_ints (s ∷ ss) = both (to_int s) (to_ints ss)

unfoldable pub str_version_to_tuple : String → Option (List ℕ)
unfolding to_int to_ints
str_version_to_tuple version = to_ints (split b'.' version)

-- `<` on tuples
unfoldable pub before : List ℕ → List ℕ → Bool
before [] [] = false
before [] (b ∷ bs) = true
before (a ∷ as') [] = false
before (a ∷ as') (b ∷ bs) = ltb a b || a =? b && before as' bs

abbrev pub min_compatible : List ℕ
min_compatible = 0 ∷ 13 ∷ []

abbrev pub max_compatible : List ℕ
max_compatible = 0 ∷ 16 ∷ []

abbrev check_tuple : String → Option (List ℕ) → Result String
check_tuple v none = err (value_error "invalid literal for int()")
check_tuple v (some t) =
    if before t min_compatible
    then err (value_error "Minimum compatible config version is 0.13")
    else if before max_compatible t
    then err (
        value_error (
          "This version of Auto tests do not supported "
          <> (v <> " version of config.Update Auto tests")))
    else ok v

-- `MainConfig._is_compatible_version`
unfoldable pub is_compatible_version : String → Result String
unfolding str_version_to_tuple before
is_compatible_version v = check_tuple v (str_version_to_tuple v)
