-- ===== src/Dependencies/Replacing.antt =====
-- The files of a new archive: `gen_new_zip_with_replacement` beside a walk over the entries.
use cloudshell_shell_automat.Base.{
  String, eq_iff, ◌≡◌, refl, Option, none, some, [], ◌∷◌, All, arith,
}
use cloudshell_shell_automat.Base.Dict.{Dict, lookup, lookup_last_unique, HasUniqueKeys}
use cloudshell_shell_automat.Exec.{ok}
use cloudshell_shell_automat.Dependencies.{
  Archive, ZipFormat, read, new_entries, gen_new_zip_with_replacement,
}

abbrev rewrite_entry : String → String → Option (Option String) → Archive → Archive
rewrite_entry name bytes none rest = (name, bytes) ∷ rest
rewrite_entry name bytes (some none) rest = rest
rewrite_entry name bytes (some (some b)) rest = (name, b) ∷ rest

-- Each entry as it is, left out, or with its new bytes.
unfoldable pub rewritten : Dict (Option String) → Archive → Archive
rewritten replacements [] = []
rewritten replacements ((name, bytes) ∷ entries) =
    rewrite_entry name bytes (lookup name replacements) (rewritten replacements entries)

-- Each of these entries is what a reader of the archive finds under its name.
abbrev pub AreReadable : Archive → Archive → Type 0
AreReadable zip_file = All (λ (name, bytes). read zip_file name ≡ ok bytes)

abbrev AreIn : Archive → Archive → Type 0
AreIn zip_file = All (λ (name, bytes). lookup name zip_file ≡ some bytes)

AreIn-behind :
    (name bytes : String) (zip_file entries : Archive)
    → lookup name zip_file ≡ none
    → AreIn zip_file entries
    → AreIn ((name, bytes) ∷ zip_file) entries
unfolding lookup
AreIn-behind name bytes zip_file [] h a = tt
AreIn-behind name bytes zip_file ((n, b) ∷ entries) h (here, rest) =
    (ground (arith, eq_iff name n), AreIn-behind name bytes zip_file entries h rest)

HasUniqueKeys-AreIn : (zip_file : Archive) → HasUniqueKeys zip_file → AreIn zip_file zip_file
unfolding lookup
HasUniqueKeys-AreIn [] u = tt
HasUniqueKeys-AreIn ((name, bytes) ∷ entries) (new, u) = (
  ground (arith, eq_iff name name),
  AreIn-behind name bytes entries entries new (HasUniqueKeys-AreIn entries u),
)

AreIn-AreReadable :
    (zip_file entries : Archive)
    → HasUniqueKeys zip_file
    → AreIn zip_file entries
    → AreReadable zip_file entries
unfolding read
AreIn-AreReadable zip_file [] u a = tt
AreIn-AreReadable zip_file ((name, bytes) ∷ entries) u (here, rest) = (
  ground (arith, lookup_last_unique name zip_file none u, here),
  AreIn-AreReadable zip_file entries u rest,
)

pub HasUniqueKeys-AreReadable :
    (zip_file : Archive) → HasUniqueKeys zip_file → AreReadable zip_file zip_file
HasUniqueKeys-AreReadable zip_file u =
    AreIn-AreReadable zip_file zip_file u (HasUniqueKeys-AreIn zip_file u)

new_entries-rewritten :
    (zip_file : Archive) (replacements : Dict (Option String)) (entries : Archive)
    → AreReadable zip_file entries
    → new_entries zip_file replacements entries ≡ ok (rewritten replacements entries)
unfolding new_entries rewritten
new_entries-rewritten zip_file replacements [] a = refl
new_entries-rewritten zip_file replacements ((name, bytes) ∷ entries) (here, rest) =
    ground (arith, here, new_entries-rewritten zip_file replacements entries rest)

-- If no name stands twice in the archive, then `gen_new_zip_with_replacement` does not fail: the new
-- archive has the entries of the old one in their order, but those to be left out, each with the
-- new bytes for its name, or else its own.
pub gen_new_zip_with_replacement-rewritten :
    (format : ZipFormat) (zip_file : Archive) (replacements : Dict (Option String))
    → HasUniqueKeys zip_file
    → gen_new_zip_with_replacement format zip_file replacements
      ≡ ok (format.zip (rewritten replacements zip_file))
unfolding gen_new_zip_with_replacement
gen_new_zip_with_replacement-rewritten format zip_file replacements u =
    rw (new_entries-rewritten zip_file replacements zip_file (HasUniqueKeys-AreReadable zip_file u))
      refl
