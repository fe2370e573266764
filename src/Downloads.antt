-- ===== src/Downloads.antt =====
-- shell_tests/helpers/download_files_helper.py. The network and the disk are a parameter that answers
-- by the history of what was done. A path or URL has no control characters and no blank in front.
pub mod Once
use cloudshell_shell_automat.Base.{
  String, ◌<>◌, Bool, true, false, ◌||◌, Option, none, some, List, [], ◌∷◌, ◌++◌, any, break_first,
  lowers_to, if◌then◌else◌,
}
use cloudshell_shell_automat.Errors.{Exc, file_not_found}
use cloudshell_shell_automat.Exec.{
  Exec, Result, ok, err, pure, raise, catch, modify, skip, for_each, ◌>>=◌, ◌>>◌,
}
use cloudshell_shell_automat.TestCases.SaveRestore.{get_file_name}

pub data Act : Type 0 where
  -- `path.mkdir(exist_ok=True)`
  mkdir : String → Act
  -- `urlretrieve(url, path)`
  urlretrieve : String → String → Act
  unlink : String → Act

-- What was done so far, the latest first.
abbrev pub Acts : Type 0
Acts = List Act

pub record Machine : Type 0 where
  pub accept : Acts → Act → Result (Unit {0})
  -- `tempfile.gettempdir()`
  pub temp_dir : String
  -- `isinstance(e, PermissionError)`
  pub is_permission_error : Exc → Bool
  -- `urlparse(url).path`
  pub url_path : String → String

-- The cached `tmp_dir` is there, and the cached `path`.
pub record DownloadFile : Type 0 where
  pub original_path : String
  pub has_tmp_dir : Bool
  pub cached : Option String

-- `DownloadFile.downloaded_files`, by their paths, and what was done.
pub record State : Type 0 where
  pub downloaded_files : List String
  pub acts : Acts

-- A file, and the rest.
pub record Downloading : Type 0 where
  pub file : DownloadFile
  pub state : State

-- `__init__`
unfoldable pub init : String → DownloadFile
init path_str = record { original_path = path_str; has_tmp_dir = false; cached = none }

-- `urlparse(url).scheme`, which is a word of this list only if the text in front of the colon is
abbrev has_scheme : Option (String × String) → Bool
unfolding lowers_to
has_scheme none = false
has_scheme (some (scheme, rest)) =
    any (λ s. lowers_to s scheme) ("http" ∷ "https" ∷ "ftp" ∷ "ftps" ∷ "tftp" ∷ [])

-- `_is_url`
unfoldable pub is_url : String → Bool
unfolding break_first lowers_to
is_url url = has_scheme (break_first b':' url)

module _ (machine : Machine) where
  abbrev perform : Act → Exec Downloading (Unit {0})
  perform a d = (
    machine.accept d.state.acts a,
    record d { state = record (d.state) { acts = a ∷ d.state.acts } },
  )

  abbrev tmp_path : String
  tmp_path = machine.temp_dir <> "/shell_tests"

  -- `tmp_dir`
  unfoldable pub get_tmp_dir : Exec Downloading String
  get_tmp_dir d = elim d.file.has_tmp_dir [
    | true ↦ (ok tmp_path, d)
    | false ↦
        (perform (Act.mkdir tmp_path)
            >> modify (λ e. record e { file = record (e.file) { has_tmp_dir = true } })
            >> pure tmp_path)
          d
  ]

  -- Where a URL is downloaded to.
  unfoldable pub local_path : String → String
  unfolding get_file_name
  local_path url = tmp_path <> ("/" <> get_file_name machine.url_path url)

  abbrev keep_path : String → Exec Downloading String
  keep_path path =
      modify (λ d. record d { file = record (d.file) { cached = some path } }) >> pure path

  abbrev note_path : String → Exec Downloading (Unit {0})
  note_path path = modify λ d. record d {
    state = record (d.state) { downloaded_files = d.state.downloaded_files ++ (path ∷ []) };
  }

  -- `path`
  unfoldable pub get_path : Exec Downloading String
  unfolding is_url get_tmp_dir local_path
  get_path d = elim d.file.cached [
    | some path ↦ (ok path, d)
    | none ↦ elim (is_url d.file.original_path) [
      | false ↦ keep_path d.file.original_path d
      | true ↦
          let url = d.file.original_path in
          let path = local_path url in
          (get_tmp_dir >> perform (Act.urlretrieve url path) >> note_path path >> keep_path path) d
    ]
  ]

  abbrev is_file_not_found : Exc → Bool
  is_file_not_found (file_not_found m) = true
  is_file_not_found _ = false

  -- `path.unlink(missing_ok=True)` with `PermissionError` suppressed
  unfoldable pub remove_file : String → Exec Acts (Unit {0})
  remove_file path =
      catch (λ acts. (machine.accept acts (Act.unlink path), Act.unlink path ∷ acts))
        (λ e. if is_file_not_found e || machine.is_permission_error e then skip else raise e)

  -- At the end of the program.
  unfoldable pub remove_downloaded_files : State → Result (Unit {0}) × Acts
  unfolding remove_file for_each
  remove_downloaded_files s = for_each s.downloaded_files remove_file s.acts
