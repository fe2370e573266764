-- ===== src/CsHandler/Shells.antt =====
-- `CloudShellHandler` of shell_tests/handlers/cs_handler.py: Shells and packages. The decorator of
-- the package `retrying` is a parameter. The first argument of an exception is taken to be a text.
use cloudshell_shell_automat.Base.{
  String, Bool, not, Option, none, some, contains, contains_lower, after_text, before_last_text,
  is_blank, if◌then◌else◌,
}
use cloudshell_shell_automat.Errors.{Exc, is_exception, str_of, other}
use cloudshell_shell_automat.Exec.{Exec, raise, catch}
use cloudshell_shell_automat.Api.{Api, Call, Calls, perform}

unfoldable pub retry_on_invalid_driver : Exc → Bool
unfolding str_of
retry_on_invalid_driver e = contains_lower "invalid driver" (str_of e)

abbrev nonempty : Option String → Option String
nonempty none = none
nonempty (some s) = if is_blank s then none else some s

abbrev before_exists : Option String → Option String
before_exists none = none
before_exists (some s) = nonempty (before_last_text "' already exists" s)

-- `re.search("named '(?P<name>.+)' already exists", message)`
unfoldable pub existing_shell_name : String → Option String
unfolding after_text before_last_text
existing_shell_name message = before_exists (after_text "named '" message)

module _ (api : Api) (retry : (Exc → Bool) → Exec Calls (Unit {0}) → Exec Calls (Unit {0})) where
  -- The `else` part of the `except` clause.
  update_existing : String → Option String → Exec Calls (Unit {0})
  update_existing path none = raise (other "'NoneType' object has no attribute 'group'")
  update_existing path (some name) = perform api.accept (Call.update_shell path name)

  -- The method that is decorated.
  unfoldable pub install_shell_once : String → Exec Calls (Unit {0})
  unfolding update_existing existing_shell_name is_exception str_of
  install_shell_once path = catch (perform api.accept (Call.add_shell path)) λ e.
      if not (is_exception e)
      then raise e
      else if not (contains "already exists" (str_of e))
      then raise e
      else update_existing path (existing_shell_name (str_of e))

  unfoldable pub install_shell : String → Exec Calls (Unit {0})
  unfolding install_shell_once retry_on_invalid_driver
  install_shell path = retry retry_on_invalid_driver (install_shell_once path)

module _ (api : Api) where
  unfoldable pub remove_shell : String → Exec Calls (Unit {0})
  remove_shell name = perform api.accept (Call.delete_shell name)

  unfoldable pub import_package : String → Exec Calls (Unit {0})
  import_package path = perform api.accept (Call.import_package path)
