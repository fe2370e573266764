-- ===== src/Tests/Archives.antt =====
-- A file of dependencies with one logging package, in a simple format of archives.
use Prim.Native.String.{[], ◌∷◌}
use cloudshell_shell_automat.Base.{
  String, Char, code, ℕ, zero, suc, ◌≤◌, ◌<◌, ◌≡◌, refl, Option, none, some, List, ◌=?◌, arith,
  length, if◌then◌else◌,
}
use cloudshell_shell_automat.Base.Dict.{lookup}
use cloudshell_shell_automat.Exec.{ok}
use cloudshell_shell_automat.SmbHandler.Paths.{size}
use cloudshell_shell_automat.Dependencies.{
  Archive, ZipFormat, zipped, is_logging, patch_dependencies, write_back, new_logging,
}
use cloudshell_shell_automat.Dependencies.Patching.{
  patched, patched_bytes, names, patch_dependencies-patched, patch_dependencies_reads_back,
}

-- Each character of a text behind a plus, and a dot at its end.
write_text : String → String → String
write_text [] rest = "." ∷ rest
write_text (c ∷ s) rest = "+" ∷ (c ∷ write_text s rest)

push : Char → Option (String × String) → Option (String × String)
push c none = none
push c (some (s, rest)) = some (c ∷ s, rest)

read_text : String → Option (String × String)
unfolding push
read_text [] = none
read_text (c ∷ []) = if code c =? b'.' then some ([], []) else none
read_text (c ∷ (d ∷ s)) =
    let rest = read_text s in if code c =? b'.' then some ([], d ∷ s) else push d rest

read_text-write_text : (s rest : String) → read_text (write_text s rest) ≡ some (s, rest)
unfolding read_text write_text
read_text-write_text [] [] = refl
read_text-write_text [] (d ∷ s) = refl
read_text-write_text (c ∷ s) rest = rw (read_text-write_text s rest) refl

write_all : Archive → String
unfolding write_text
write_all List.[] = []
write_all (List.◌∷◌ (name, bytes) entries) = write_text name (write_text bytes (write_all entries))

add : String → String → Option Archive → Option Archive
add name bytes none = none
add name bytes (some entries) = some (List.◌∷◌ (name, bytes) entries)

read_all : ℕ → String → Option Archive
unfolding read_text add
read_all zero s = none
read_all (suc n) [] = some List.[]
read_all (suc n) (c ∷ s) = elim (read_text (c ∷ s)) [
  | none ↦ none
  | some (name, more) ↦ elim (read_text more) [
    | none ↦ none
    | some (bytes, rest) ↦ add name bytes (read_all n rest)
  ]
]

size-write_text : (s rest : String) → size rest < size (write_text s rest)
unfolding write_text
size-write_text [] rest = omega arith
size-write_text (c ∷ s) rest = omega (arith, size-write_text s rest)

more_than_entries : (entries : Archive) → length entries ≤ size (write_all entries)
unfolding write_all
more_than_entries List.[] = omega arith
more_than_entries (List.◌∷◌ (name, bytes) entries) = omega (
  arith,
  more_than_entries entries,
  size-write_text bytes (write_all entries),
  size-write_text name (write_text bytes (write_all entries)),
)

read_nothing : read_text [] ≡ none
unfolding read_text
read_nothing = refl

read_all_step :
    (n : ℕ) (s name more bytes rest : String) (entries : Archive)
    → read_text s ≡ some (name, more)
    → read_text more ≡ some (bytes, rest)
    → read_all n rest ≡ some entries
    → read_all (suc n) s ≡ some (List.◌∷◌ (name, bytes) entries)
unfolding read_all add
read_all_step n [] name more bytes rest entries h k e = absurd (cc (read_nothing, h))
read_all_step n (c ∷ s) name more bytes rest entries h k e = ground (arith, h, k, e)

read_all-write_all :
    (n : ℕ) (entries : Archive) → length entries < n → read_all n (write_all entries) ≡ some entries
unfolding read_all write_all add
read_all-write_all zero entries h = absurd (omega arith)
read_all-write_all (suc n) List.[] h = refl
read_all-write_all (suc n) (List.◌∷◌ (name, bytes) entries) h =
    read_all_step n (write_text name (write_text bytes (write_all entries))) name
      (write_text bytes (write_all entries)) bytes (write_all entries) entries
      (read_text-write_text name (write_text bytes (write_all entries)))
      (read_text-write_text bytes (write_all entries))
      (read_all-write_all n entries (omega (arith, h)))

format : ZipFormat
format = record { zip = write_all; unzip = λ s. read_all (suc (size s)) s }

format_law : (entries : Archive) → format.unzip (format.zip entries) ≡ some entries
unfolding format
format_law entries =
    read_all-write_all (suc (size (write_all entries))) entries
      (omega (arith, more_than_entries entries))

abbrev logging_package : Archive
logging_package = List.◌∷◌ ("cloudshell/logging/qs_config.ini", "LOG_LEVEL='INFO'") List.[]

abbrev dependencies : Archive
dependencies =
    List.◌∷◌ ("cloudshell-logging-1.0.whl", format.zip logging_package)
      (List.◌∷◌ ("x.zip", "1") List.[])

abbrev new_package : Archive
new_package = List.◌∷◌ ("cloudshell/logging/qs_config.ini", "LOG_LEVEL='DEBUG'") List.[]

abbrev new_dependencies : Archive
new_dependencies =
    List.◌∷◌ ("cloudshell-logging-1.0.whl", format.zip new_package)
      (List.◌∷◌ ("x.zip", "1") List.[])

patched_run : patched format dependencies ≡ ok new_dependencies
unfolding patched patched_bytes new_logging format is_logging read_all write_all
patched_run = refl

patched_example :
    patch_dependencies format (format.zip dependencies)
    ≡ write_back (zipped format (patched format dependencies)) (format.zip dependencies)
unfolding lookup
patched_example =
    patch_dependencies-patched format (format.zip dependencies) dependencies
      (format_law dependencies) (refl, (refl, tt))

reads_back_example :
    ((patch_dependencies format (format.zip dependencies)).0 ≡ ok tt)
    × (format.unzip (patch_dependencies format (format.zip dependencies)).1 ≡ some new_dependencies)
    × (names new_dependencies ≡ names dependencies)
    × (lookup "x.zip" new_dependencies ≡ lookup "x.zip" dependencies)
unfolding lookup is_logging
reads_back_example =
    patch_dependencies_reads_back format (format.zip dependencies) dependencies new_dependencies
      "x.zip" format_law (format_law dependencies) (refl, (refl, tt)) patched_run refl
