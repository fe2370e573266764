-- ===== src/Errors.antt =====
-- The exceptions: the classes of shell_tests/errors.py, and those of the standard library and of
-- third-party packages that the code catches or tells apart. The text is `str(e)`.
use cloudshell_shell_automat.Base.{String, ◌<>◌, Bool, true, false, List}

pub data Exc : Type 0 where
  -- shell_tests/errors.py
  base_automation : String → Exc
  resource_is_not_alive : String → Exc
  cs_is_not_alive : Exc
  deployment_resource_not_found : String → Exc
  creation_reservation : String → Exc
  -- a `CreationReservationError` that carries the errors of the activity feed
  reservation_errors : List (String × String) → Exc
  dependencies_broken : Exc
  -- `CloudShellAPIError`: its code, its message, and `str(e)`
  api_error : String → String → String → Exc
  -- `ShellNotFoundException`, `OSError`, `MaxRetryError`
  shell_not_found : Exc
  os_error : String → Exc
  max_retry_error : Exc
  -- pysmb's `OperationFailure`: its message and `str(e)`
  operation_failure : String → String → Exc
  -- pysmb's `NotConnectedError`, `NotReadyError` and `SMBTimeout`
  not_connected not_ready smb_timeout : Exc
  -- `ftplib.Error`, and the `FileNotFoundError` of the standard library
  ftp_error file_not_found : String → Exc
  -- the `...FileNotFoundError` of a handler of remote files, with the file's name
  remote_file_not_found : String → Exc
  key_error : String → Exc
  index_error : Exc
  assertion_error : String → Exc
  value_error : String → Exc
  -- `KeyboardInterrupt`, which is no `Exception`
  keyboard_interrupt : Exc
  -- any other `Exception`
  other : String → Exc
  -- no exception of the program: the bound that the model sets on a `while True` loop was met
  no_fuel : Exc

-- `except Exception`
unfoldable pub is_exception : Exc → Bool
is_exception keyboard_interrupt = false
is_exception no_fuel = false
is_exception _ = true

-- `isinstance(e, BaseAutomationException)`
unfoldable pub is_base_automation : Exc → Bool
is_base_automation (base_automation m) = true
is_base_automation (resource_is_not_alive m) = true
is_base_automation cs_is_not_alive = true
is_base_automation (deployment_resource_not_found m) = true
is_base_automation (creation_reservation m) = true
is_base_automation (reservation_errors es) = true
is_base_automation dependencies_broken = true
is_base_automation _ = false

-- `str(e)`, which is also the first argument of those with one text
unfoldable pub str_of : Exc → String
str_of (base_automation m) = m
str_of (resource_is_not_alive m) = m
str_of (deployment_resource_not_found m) = m
str_of (creation_reservation m) = m
str_of (api_error c m t) = t
str_of (os_error m) = m
str_of (operation_failure m t) = t
str_of (ftp_error m) = m
str_of (file_not_found m) = m
str_of (remote_file_not_found name) = "File not found - " <> name
str_of (key_error m) = m
str_of (assertion_error m) = m
str_of (value_error m) = m
str_of (other m) = m
str_of _ = ""
