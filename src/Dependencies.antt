-- ===== src/Dependencies.antt =====
-- shell_tests/helpers/dependencies_helpers.py. A zip file is the list of its entries, a name and the
-- bytes, which are a text here; the zip format is a parameter. Names do not end with a slash.
pub mod Replacing
pub mod Patching
use cloudshell_shell_automat.Base.{
  String, ℕ, ◌<>◌, ◌==◌, Bool, true, false, not, ◌&&◌, ◌||◌, Option, none, some, List, [], ◌∷◌,
  elem, is_blank, break_first, break_last, starts_with_lower, replace, if◌then◌else◌, map,
}
use cloudshell_shell_automat.Base.Dict.{Dict, lookup, lookup_last, insert}
use cloudshell_shell_automat.Errors.{Exc, key_error, assertion_error, other}
use cloudshell_shell_automat.Exec.{Exec, Result, ok, err}

abbrev pub Archive : Type 0
Archive = Dict String

-- The format of zip files: what is written to bytes, and what is read from them if they are a zip.
pub record ZipFormat : Type 0 where
  pub zip : Archive → String
  pub unzip : String → Option Archive

abbrev pub found : String → Option String → Result String
found name none = err (key_error name)
found name (some bytes) = ok bytes

-- `zip_file.read(name)`: the last entry of this name.
unfoldable pub read : Archive → String → Result String
unfolding lookup_last
read zip_file name = found name (lookup_last name zip_file none)

-- What a replacement says: nothing, to leave the file out, or its new bytes.
abbrev add_entry : String → Option (Option String) → Result String → Result Archive → Result Archive
add_entry name (some none) old rest = rest
add_entry name (some (some bytes)) old (ok entries) = ok ((name, bytes) ∷ entries)
add_entry name none (ok bytes) (ok entries) = ok ((name, bytes) ∷ entries)
add_entry name none (err e) rest = err e
add_entry name _ old (err e) = err e

-- The loop over `zip_file.namelist()`, here over the entries, for their names.
unfoldable pub new_entries : Archive → Dict (Option String) → Archive → Result Archive
unfolding read lookup
new_entries zip_file replacements [] = ok []
new_entries zip_file replacements ((name, _) ∷ entries) =
    add_entry name (lookup name replacements) (read zip_file name)
      (new_entries zip_file replacements entries)

abbrev pub zipped : ZipFormat → Result Archive → Result String
zipped format (ok entries) = ok (format.zip entries)
zipped format (err e) = err e

unfoldable pub gen_new_zip_with_replacement :
    ZipFormat → Archive → Dict (Option String) → Result String
unfolding new_entries
gen_new_zip_with_replacement format zip_file replacements =
    zipped format (new_entries zip_file replacements zip_file)

abbrev second_or : String → Option (String × String) → String
second_or s none = s
second_or s (some (a, b)) = b

abbrev suffix_of : Option (String × String) → String
suffix_of none = ""
suffix_of (some (a, b)) = if is_blank a || is_blank b then "" else "." <> b

-- `Path(name).suffix`
unfoldable pub suffix : String → String
unfolding break_last
suffix name = suffix_of (break_last b'.' (second_or name (break_last b'/' name)))

abbrev first_or : String → Option (String × String) → String
first_or s none = s
first_or s (some (a, b)) = a

-- The set `dirs`, each once.
unfoldable pub top_dirs : Archive → List String
unfolding break_first
top_dirs [] = []
top_dirs ((name, _) ∷ entries) =
    let dir = first_or name (break_first b'/' name) in
    let rest = top_dirs entries in if elem dir rest then rest else dir ∷ rest

abbrev in_dir : List String → Result String
in_dir (dir ∷ []) = ok (dir <> "/cloudshell/logging/qs_config.ini")
in_dir _ = err (assertion_error "")

unfoldable pub config_path_of : String → Archive → Result String
unfolding suffix top_dirs
config_path_of filename entries =
    let ext = suffix filename in
    if ext == ".zip"
    then in_dir (top_dirs entries)
    else if ext == ".whl"
    then ok "cloudshell/logging/qs_config.ini"
    else err (other ("Extension " <> (ext <> " is not supported")))

-- `data.replace(b"LOG_LEVEL='INFO'", b"LOG_LEVEL='DEBUG'")`
unfoldable pub to_debug : String → String
unfolding replace
to_debug bytes = replace bytes "LOG_LEVEL='INFO'" "LOG_LEVEL='DEBUG'"

abbrev with_path : String → Result String → Result (String × String)
with_path config_path (ok bytes) = ok (to_debug bytes, config_path)
with_path config_path (err e) = err e

abbrev config_at : Archive → Result String → Result (String × String)
config_at entries (err e) = err e
config_at entries (ok config_path) = with_path config_path (read entries config_path)

unfoldable pub get_new_config_and_path : String → Archive → Result (String × String)
unfolding config_path_of read to_debug
get_new_config_and_path filename entries = config_at entries (config_path_of filename entries)

-- `LOGGING_PATTERN.search(package_name)`
unfoldable pub is_logging : String → Bool
unfolding starts_with_lower
is_logging package_name =
    starts_with_lower "cloudshell-logging-" package_name
    || starts_with_lower "cloudshell_logging-" package_name

abbrev replaced : ZipFormat → Archive → Result (String × String) → Result String
replaced format entries (ok (bytes, path)) =
    gen_new_zip_with_replacement format entries ((path, some bytes) ∷ [])
replaced format entries (err e) = err e

abbrev opened : ZipFormat → String → Option Archive → Result String
opened format package_name none = err (other "File is not a zip file")
opened format package_name (some entries) =
    replaced format entries (get_new_config_and_path package_name entries)

-- The new bytes of a logging package.
unfoldable pub new_logging : ZipFormat → String → Result String → Result String
unfolding gen_new_zip_with_replacement get_new_config_and_path
new_logging format package_name (ok bytes) = opened format package_name (format.unzip bytes)
new_logging format package_name (err e) = err e

-- The loop over the packages.
unfoldable pub gather :
    ZipFormat → Archive → Archive → Dict (Option String) → Result (Dict (Option String))
unfolding is_logging new_logging read
gather format dep_zip [] replacements = ok replacements
gather format dep_zip ((package_name, _) ∷ entries) replacements =
    if is_logging package_name
    then elim (new_logging format package_name (read dep_zip package_name)) [
      | ok bytes ↦ gather format dep_zip entries (insert package_name (some bytes) replacements)
      | err e ↦ err e
    ]
    else gather format dep_zip entries replacements

abbrev new_dependencies : ZipFormat → Archive → Result (Dict (Option String)) → Result String
new_dependencies format dep_zip (ok replacements) =
    gen_new_zip_with_replacement format dep_zip replacements
new_dependencies format dep_zip (err e) = err e

abbrev pub write_back : Result String → Exec String (Unit {0})
write_back (ok bytes) file = (ok tt, bytes)
write_back (err e) file = (err e, file)

abbrev patch_archive : ZipFormat → Option Archive → Result String
patch_archive format none = err (other "File is not a zip file")
patch_archive format (some dep_zip) =
    new_dependencies format dep_zip (gather format dep_zip dep_zip [])

-- The state is the file's bytes. It is written last.
unfoldable pub patch_dependencies : ZipFormat → Exec String (Unit {0})
unfolding gather gen_new_zip_with_replacement
patch_dependencies format file = write_back (patch_archive format (format.unzip file)) file
