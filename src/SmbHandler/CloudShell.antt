-- ===== src/SmbHandler/CloudShell.antt =====
-- shell_tests/handlers/smb_handler.py: `CloudShellSmbHandler`, and
-- shell_tests/helpers/smb_helpers.py. Of the configuration stand its three fields here. A raw text of
-- the source keeps its backslashes, also where two stand together. Times are in seconds.
pub mod Pypi
use cloudshell_shell_automat.Base.{
  String, ℕ, ◌+◌, ◌<>◌, Bool, not, ◌&&◌, List, [], ◌∷◌, elem, ltb, contains_lower, keep, map,
  if◌then◌else◌, true, false,
}
use cloudshell_shell_automat.Errors.{Exc, file_not_found, is_exception, str_of}
use cloudshell_shell_automat.Exec.{
  Exec, Result, ok, err, pure, raise, catch, skip, for_each, ◌>>=◌, ◌>>◌,
}
use cloudshell_shell_automat.Smb.{SharedFile, SmbCall, SmbCalls, SmbServer}
use cloudshell_shell_automat.SmbHandler.{
  SmbHandler, State, init, perform, ls, put_file_obj, put_file_path, remove_file, get_r_file,
  download_r_dir,
}

abbrev cs_server_name : String
cs_server_name = "User-PC"

abbrev cs_share : String
cs_share = "C$"

abbrev qs_path : String
qs_path = "Program Files (x86)\\\\QualiSystems\\\\"

unfoldable pub cs_pypi_path : String
cs_pypi_path = qs_path <> "CloudShell\\\\Server\\\\Config\\\\Pypi Server Repository\\\\"

unfoldable pub cs_standards_path : String
cs_standards_path = qs_path <> "CloudShell\\\\Server\\\\ToscaStandard\\\\"

abbrev pub cs_logs_shell_dir : String
cs_logs_shell_dir = "ProgramData\\\\QualiSystems\\\\logs"

abbrev pub cs_logs_autoload_dir : String
cs_logs_autoload_dir = cs_logs_shell_dir <> "\\\\inventory"

abbrev pub cs_logs_installation_dir : String
cs_logs_installation_dir = qs_path <> "TestShell\\\\ExecutionServer\\\\Logs\\\\QsPythonDriverHost"

abbrev pub venv_dir : String
venv_dir = "ProgramData\\QualiSystems\\venv"

unfoldable pub qs_config_path : String → String
qs_config_path venv_name =
    venv_dir <> ("\\" <> (venv_name <> "\\Lib\\site-packages\\cloudshell\\logging\\qs_config.ini"))

-- A file of the local disk, by its path and its `name`.
pub record LocalFile : Type 0 where
  pub path : String
  pub name : String

unfoldable pub init_cloudshell : String → String → String → SmbHandler
unfolding init
init_cloudshell os_user os_password host = init os_user os_password host cs_server_name cs_share

abbrev pub day : ℕ
day = 86400

-- `FilterByLastWriteTime`
unfoldable pub filter_by_last_write_time : ℕ → SharedFile → Bool
filter_by_last_write_time start_time smb_file = ltb start_time (smb_file.last_write_time + day)

-- `FilterByFileNameInIterable`
unfoldable pub filter_by_file_name : List String → SharedFile → Bool
filter_by_file_name names smb_file = elem smb_file.filename names

abbrev pub excluded : List String
excluded = "." ∷ ".." ∷ "PlaceHolder.txt" ∷ []

abbrev pub file_names : List SharedFile → List String
file_names = map (λ f. f.filename)

abbrev pub is_package : SharedFile → Bool
is_package f = not (elem f.filename excluded)

abbrev forgive_missing : Exc → Exec State (Unit {0})
forgive_missing (file_not_found name) = skip
forgive_missing e = raise e

-- `with suppress(FileNotFoundError)`
abbrev suppress_missing : Exec State (Unit {0}) → Exec State (Unit {0})
suppress_missing m = catch m forgive_missing

module _ (server : SmbServer)
    (retry : (A : Type 0) → (Exc → Bool) → Exec State A → Exec State A) where
  unfoldable pub add_file_obj_to_offline_pypi : String → String → Exec State (Unit {0})
  unfolding cs_pypi_path put_file_obj
  add_file_obj_to_offline_pypi file_obj file_name =
      put_file_obj server retry 0 (cs_pypi_path <> file_name) file_obj false

  -- The archive's files stand here as a list of names and contents.
  unfoldable pub add_dependencies_to_offline_pypi : List (String × String) → Exec State (Unit {0})
  unfolding for_each add_file_obj_to_offline_pypi
  add_dependencies_to_offline_pypi file =
      for_each file (λ (name, bytes). add_file_obj_to_offline_pypi bytes name)

  unfoldable pub get_file_names_from_offline_pypi : Exec State (List String)
  unfolding cs_pypi_path ls
  get_file_names_from_offline_pypi = do
    files ← ls server retry cs_pypi_path
    pure (file_names (keep is_package files))

  unfoldable pub remove_file_from_offline_pypi : String → Exec State (Unit {0})
  unfolding cs_pypi_path remove_file
  remove_file_from_offline_pypi filename = remove_file server retry (cs_pypi_path <> filename)

  unfoldable pub clear_offline_pypi : Exec State (Unit {0})
  unfolding for_each get_file_names_from_offline_pypi remove_file_from_offline_pypi
  clear_offline_pypi =
      get_file_names_from_offline_pypi >>= λ names. for_each names remove_file_from_offline_pypi

  unfoldable pub add_cs_standard_file_path : LocalFile → Exec State (Unit {0})
  unfolding cs_standards_path put_file_path
  add_cs_standard_file_path standard =
      put_file_path server retry 0 (cs_standards_path <> standard.name) standard.path false

  unfoldable pub get_tosca_standards_file_names : Exec State (List String)
  unfolding cs_standards_path ls
  get_tosca_standards_file_names = do
    files ← ls server retry cs_standards_path
    pure (file_names files)

  unfoldable pub add_extra_standards : List LocalFile → Exec State (Unit {0})
  unfolding for_each get_tosca_standards_file_names add_cs_standard_file_path
  add_extra_standards extra_standards = get_tosca_standards_file_names >>= λ installed.
      for_each extra_standards λ standard.
        if elem standard.name installed then skip else add_cs_standard_file_path standard

  abbrev make_dir : String → Exec State (Unit {0})
  make_dir path = perform server.accept (SmbCall.make_dir path)

  -- What stands under the `try`.
  unfoldable pub download_logs_body : ℕ → String → ℕ → List String → Exec State (Unit {0})
  unfolding download_r_dir filter_by_last_write_time filter_by_file_name
  download_logs_body fuel path_to_save start_time reservation_ids =
      let shell_logs = path_to_save <> "/shell_logs" in
      let installation_logs = path_to_save <> "/installation_logs" in
      let autoload_logs = shell_logs <> "/inventory" in
      do
        suppress_missing (perform server.accept (SmbCall.remove_tree path_to_save))
        make_dir path_to_save
        make_dir shell_logs
        make_dir installation_logs
        make_dir autoload_logs
        download_r_dir server retry fuel cs_logs_installation_dir installation_logs
            (filter_by_last_write_time start_time)
        download_r_dir server retry fuel cs_logs_shell_dir shell_logs
            (filter_by_file_name reservation_ids)
        download_r_dir server retry fuel cs_logs_autoload_dir autoload_logs
            (filter_by_last_write_time start_time)

  -- Either branch on the text of the error only logs.
  unfoldable pub download_logs : ℕ → String → ℕ → List String → Exec State (Unit {0})
  unfolding is_exception download_logs_body
  download_logs fuel path_to_save start_time reservation_ids =
      catch (download_logs_body fuel path_to_save start_time reservation_ids)
        (λ e. if is_exception e then skip else raise e)

  unfoldable pub get_venv_names : Exec State (List String)
  unfolding ls
  get_venv_names = do files ← ls server retry venv_dir; pure (file_names files)

  unfoldable pub get_qs_config : String → Exec State String
  unfolding qs_config_path get_r_file
  get_qs_config venv_name = get_r_file server retry (qs_config_path venv_name)

  unfoldable pub put_qs_config : String → String → Exec State (Unit {0})
  unfolding qs_config_path put_file_obj
  put_qs_config venv_name config =
      put_file_obj server retry 0 (qs_config_path venv_name) config false
