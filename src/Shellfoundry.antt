-- ===== src/Shellfoundry.antt =====
-- shell_tests/oop_shellfoundry.py. Processes, directories and files are a parameter that answers by
-- the history of calls, and so are the tests that `_run_tests` runs. Logging is left out.
pub mod Commands
pub mod Checking
use cloudshell_shell_automat.Base.{
  String, ℕ, ◌<>◌, ◌=?◌, ◌==◌, code, Bool, true, false, not, ◌&&◌, ◌||◌, Option, none, some, List,
  [], ◌∷◌, contains, starts_with, is_blank, replace, if◌then◌else◌,
}
use cloudshell_shell_automat.Base.Words.{words}
use cloudshell_shell_automat.Errors.{Exc, other}
use cloudshell_shell_automat.Exec.{Exec, Result, ok, err, pure, raise, modify, skip, ◌>>=◌, ◌>>◌}

pub data Act : Type 0 where
  -- `subprocess.Popen` with these arguments
  popen : List String → Act
  -- `response.communicate` with this input, and `response.stdout.read`
  communicate : String → Act
  read_output : Act
  chdir : String → Act
  -- a directory and a pattern
  glob : String → String → Act
  read_file : String → Act
  -- a path and the text
  write_file : String → String → Act
  rmtree : String → Act

-- The acts so far, the latest first.
abbrev pub Acts : Type 0
Acts = List Act

pub record Os : Type 0 where
  pub accept : Acts → Act → Result (Unit {0})
  pub text : Acts → Act → Result String
  pub names : Acts → Act → Result (List String)

-- The working directory, as it was last asked for, and the acts.
pub record Desk : Type 0 where
  pub dir : String
  pub acts : Acts

abbrev pub perform : {A : Type 0} → (Acts → Act → Result A) → Act → Exec Desk A
perform reply a s = (reply s.acts a, record s { acts = a ∷ s.acts })

-- `Path(a) / b`, of a normal path and a relative or absolute name
unfoldable pub join_path : String → String → String
join_path a b = if starts_with b "/" then b else if is_blank b then a else a <> ("/" <> b)

-- `re.sub(r"([/,-])", r"_", template)`
unfoldable pub underscored : String → String
underscored String.[] = ""
underscored (String.◌∷◌ c s) =
    String.◌∷◌ (if code c =? b'/' || code c =? b',' || code c =? b'-' then "_" else c)
      (underscored s)

-- The name that `new` takes.
unfoldable pub name_of_shell : String → Option String → String
unfolding contains underscored
name_of_shell shell_name none = shell_name
name_of_shell shell_name (some template) =
    if not (contains "local" template) && is_blank shell_name
    then underscored template
    else shell_name

abbrev with_version : Option String → String → String
with_version none command = command
with_version (some version) command =
    if is_blank version then command else command <> (" --version " <> version)

-- The command that `new` runs.
unfoldable pub create_shell_command : String → Option String → Option String → String
unfolding name_of_shell contains
create_shell_command shell_name none version = "shellfoundry new " <> name_of_shell shell_name none
create_shell_command shell_name (some template) version =
    let command =
      ("shellfoundry new " <> name_of_shell shell_name (some template))
      <> (" --template " <> template) in
    if contains "local" template then command else with_version version command

abbrev first_of : List String → Result String
first_of [] = err (other "StopIteration")
first_of (path ∷ paths) = ok path

module _ (os : Os) where
  unfoldable pub run_command : String → Exec Desk (Unit {0})
  unfolding words contains
  run_command command = do
    perform os.accept (Act.popen (words command))
    (if contains "local" command
        then perform os.text (Act.communicate "\n")
        else perform os.text Act.read_output)
    skip

  -- What `Popen` gives is no iterable, so that the loop over it raises a `TypeError`.
  unfoldable pub get_templates : Exec Desk (List String)
  unfolding run_command
  get_templates = run_command "list --all" >> raise (other "TypeError")

  unfoldable pub new : String → Option String → Option String → Exec Desk (Unit {0})
  unfolding run_command create_shell_command
  new shell_name template version = run_command (create_shell_command shell_name template version)

  -- `os.chdir`
  unfoldable pub change_dir : String → Exec Desk (Unit {0})
  unfolding join_path
  change_dir path = do
    perform os.accept (Act.chdir path)
    modify (λ s. record s { dir = join_path s.dir path })

  module _ (root_dir : String) where
    unfoldable pub pack : String → Exec Desk (Unit {0})
    unfolding change_dir run_command
    pack shell_folder = do
      change_dir shell_folder
      run_command "shellfoundry pack"
      change_dir root_dir

    unfoldable pub get_path_to_zip : String → Exec Desk String
    unfolding join_path
    get_path_to_zip shell_name = do
      found ← perform os.names (Act.glob (join_path (join_path root_dir shell_name) "dist") "*.zip")
      (λ s. (first_of found, s))

  -- `check_shellfoundry_templates` up to the file of the configuration
  unfoldable pub write_config : String → String → String → Exec Desk (Unit {0})
  unfolding new pack get_path_to_zip replace
  write_config root_dir template_path test_conf = do
    new "shell_created_by_test" (some template_path) none
    pack root_dir "shell_created_by_test"
    shell_path ← get_path_to_zip root_dir "shell_created_by_test"
    text ← perform os.text (Act.read_file test_conf)
    perform os.accept
        (Act.write_file "shell-from-template.yaml" (replace text "$shell_path" shell_path))

  -- By the tests of a configuration's file: whether they were successful, or an exception.
  module _ (run_tests : String → Exec Desk Bool) where
    -- The rest of it. What `_run_tests` returns is not used.
    unfoldable pub run_and_remove : Exec Desk (Unit {0})
    run_and_remove =
        run_tests "shell-from-template.yaml"
        >> perform os.accept (Act.rmtree "shell_created_by_test")

    -- In the directory where it starts.
    unfoldable pub check_shellfoundry_templates : String → String → Exec Desk (Unit {0})
    unfolding write_config run_and_remove
    check_shellfoundry_templates template_path test_conf start =
        (write_config start.dir template_path test_conf >> run_and_remove) start
