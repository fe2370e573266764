-- ===== src/TestCases/SaveRestore.antt =====
-- shell_tests/automation_tests/test_save_config.py and test_restore_config.py. The classes for FTP,
-- SCP and TFTP differ in the protocol only, which is an argument here; a class is chosen only where
-- its server is configured, so the configuration is one too. Parameters: what `json.dumps` makes of the
-- folder, the identifier that `json.loads` finds, and `urlparse`.
pub mod Deleting
use cloudshell_shell_automat.Base.{
  String, ◌<>◌, Bool, true, false, not, Option, none, some, List, [], ◌∷◌, is_blank, break_last,
  if◌then◌else◌,
}
use cloudshell_shell_automat.Errors.{Exc, api_error, assertion_error}
use cloudshell_shell_automat.Exec.{
  Exec, Result, ok, err, pure, raise, catch, finally, on, skip, ◌>>=◌, ◌>>◌,
}
use cloudshell_shell_automat.Api.{Api}
use cloudshell_shell_automat.Configs.{HostWithUserConfig}
use cloudshell_shell_automat.ResourceHandler.State as Resource
use cloudshell_shell_automat.ResourceHandler.Commands.{
  save, restore, orchestration_save, orchestration_restore,
}
use cloudshell_shell_automat.RemoteFiles as Files
use cloudshell_shell_automat.RemoteFiles.{FileServer, Protocol, read_file, delete_file}
use cloudshell_shell_automat.TestCases.Base.{assert_true, assert_raises_regex}

-- The handler under test, and the handler of files.
pub record State : Type 0 where
  pub handler : Resource.State
  pub files : Files.State

abbrev pub on_handler : {A : Type 0} → Exec Resource.State A → Exec State A
on_handler = on (λ s. s.handler) (λ h s. record s { handler = h })

abbrev pub on_files : {A : Type 0} → Exec Files.State A → Exec State A
on_files = on (λ s. s.files) (λ f s. record s { files = f })

-- How an f-string shows an optional text.
abbrev shown : Option String → String
shown none = "None"
shown (some s) = s

abbrev with_user : HostWithUserConfig → String
with_user conf = shown conf.user <> (":" <> (shown conf.password <> ("@" <> conf.host_conf.host)))

-- `ftp_path`, `scp_path` and `tftp_path`
unfoldable pub folder_path : Protocol → HostWithUserConfig → String
folder_path Protocol.ftp conf = "ftp://" <> with_user conf
folder_path Protocol.scp conf = "scp://" <> with_user conf
folder_path Protocol.tftp conf = "tftp://" <> conf.host_conf.host

abbrev name_of : String → Option (String × String) → String
name_of path none = path
name_of path (some (a, b)) = b

-- `CloudShellAPIError`
unfoldable pub is_api_error : Exc → Bool
is_api_error (api_error code message t) = true
is_api_error _ = false

-- `get_file_name` of shell_tests/helpers/download_files_helper.py, for a path with no slash at its end
unfoldable pub get_file_name : (String → String) → String → String
unfolding break_last
get_file_name url_path url = name_of (url_path url) (break_last b'/' (url_path url))

module _ (api : Api) (server : FileServer)
    (retry : (A : Type 0) → (Exc → Bool) → Exec Files.State A → Exec Files.State A) (p : Protocol)
    (conf : HostWithUserConfig) where
  abbrev pub delete : String → Exec State (Unit {0})
  delete file_name = on_files (delete_file server conf retry p file_name)

  abbrev read : String → Exec State String
  read file_name = on_files (read_file server conf retry p file_name)

  -- The file is there and not empty, and is deleted.
  abbrev check_and_delete : String → Exec State (Unit {0})
  check_and_delete file_name = do
    content ← read file_name
    assert_true (not (is_blank content))
    delete file_name

  -- `test_save_running_config` and `test_save_startup_config`
  unfoldable pub test_save : String → Exec State (Unit {0})
  unfolding save folder_path read_file delete_file
  test_save configuration_type =
      on_handler (save api (folder_path p conf) configuration_type) >>= check_and_delete

  -- The four tests of `restore`, by the type of the configuration and the method.
  unfoldable pub test_restore : String → String → Exec State (Unit {0})
  unfolding save restore folder_path delete_file
  test_restore configuration_type restore_method =
      on_handler (save api (folder_path p conf) configuration_type) >>= λ file_name.
      finally
        (on_handler (
            restore api (folder_path p conf <> ("/" <> file_name)) configuration_type
              restore_method)
          >> skip)
        (delete file_name)

  module _ (dumps : String → String) (identifier : String → Result String)
      (url_path : String → String) where
    -- The name of the saved file by the artifact's info.
    abbrev artifact : String → Exec State String
    artifact info s = elim (identifier info) [
      | ok path ↦ (ok (get_file_name url_path path), s)
      | err e ↦ (err e, s)
    ]

    abbrev orchestration : String → Exec State String
    orchestration mode = on_handler (orchestration_save api mode (dumps (folder_path p conf)))

    -- `test_orchestration_save_shallow` and `test_orchestration_save_deep`
    unfoldable pub test_orchestration_save : String → Exec State (Unit {0})
    unfolding orchestration_save folder_path get_file_name read_file delete_file
    test_orchestration_save mode = orchestration mode >>= λ info.
        assert_true (not (is_blank info)) >> (artifact info >>= check_and_delete)

    unfoldable pub test_orchestration_restore : Exec State (Unit {0})
    unfolding orchestration_save orchestration_restore folder_path get_file_name delete_file
    test_orchestration_restore = orchestration "shallow" >>= λ info.
        finally (on_handler (orchestration_restore api info "") >> skip) (artifact info >>= delete)

    -- The tests of `TestSaveConfig`, `TestSaveConfigFromScp` and `TestSaveConfigFromTftp`.
    unfoldable pub save_config_tests : List (String × Exec State (Unit {0}))
    unfolding test_save test_orchestration_save
    save_config_tests =
        ("test_save_running_config", test_save "running")
        ∷ ("test_save_startup_config", test_save "startup")
        ∷ ("test_orchestration_save_shallow", test_orchestration_save "shallow")
        ∷ ("test_orchestration_save_deep", test_orchestration_save "deep")
        ∷ []

    -- The tests of `TestRestoreConfig`, `TestRestoreConfigFromScp` and `TestRestoreConfigFromTftp`.
    unfoldable pub restore_config_tests : List (String × Exec State (Unit {0}))
    unfolding test_restore test_orchestration_restore
    restore_config_tests =
        ("test_restore_running_config_append", test_restore "running" "append")
        ∷ ("test_restore_startup_config_append", test_restore "startup" "append")
        ∷ ("test_restore_running_config_override", test_restore "running" "override")
        ∷ ("test_restore_startup_config_override", test_restore "startup" "override")
        ∷ ("test_orchestration_restore", test_orchestration_restore)
        ∷ []

module _ (api : Api) (search : String → String → Bool) where
  abbrev refused : Exec State String → Exec State (Unit {0})
  refused m = assert_raises_regex search is_api_error "SessionManagerException" (m >> skip)

  -- `TestSaveConfigWithoutDevice`; the second argument of `orchestration_save` is its default
  unfoldable pub test_save_without_device : HostWithUserConfig → String → Exec State (Unit {0})
  unfolding save folder_path is_api_error
  test_save_without_device conf configuration_type =
      refused (on_handler (save api (folder_path Protocol.ftp conf) configuration_type))

  unfoldable pub test_orchestration_save_without_device : String → Exec State (Unit {0})
  unfolding orchestration_save is_api_error
  test_orchestration_save_without_device mode =
      refused (on_handler (orchestration_save api mode ""))

  -- `TestRestoreConfigWithoutDevice`, but for `test_orchestration_restore`
  unfoldable pub test_restore_without_device : String → String → Exec State (Unit {0})
  unfolding restore is_api_error
  test_restore_without_device configuration_type restore_method =
      refused
        (on_handler (restore api "ftp://localhost/test_conf" configuration_type restore_method))

-- `TestSaveConfigFromTemplate` and `TestRestoreConfigFromTemplate`
module _ (api : Api) (dumps : String → String) where
  unfoldable pub test_save_from_template : Exec State (Unit {0})
  unfolding save
  test_save_from_template = on_handler (save api "ftp://" "running") >> skip

  unfoldable pub test_orchestration_save_from_template : String → Exec State (Unit {0})
  unfolding orchestration_save
  test_orchestration_save_from_template mode =
      on_handler (orchestration_save api mode (dumps "ftp://")) >> skip

  unfoldable pub test_restore_from_template : Exec State (Unit {0})
  unfolding restore
  test_restore_from_template = on_handler (restore api "ftp://" "running" "override") >> skip
