-- ===== src/Tests/Shares.antt =====
-- A share with two directories.
use mathlib.Core.Path.{subst}
use cloudshell_shell_automat.Base.{
  String, eq_iff, ◌≡◌, refl, sym, Option, Bool, true, false, List, [], ◌∷◌, elem, keep, contains,
  arith, if◌then◌else◌,
}
use cloudshell_shell_automat.Errors.{Exc, operation_failure, no_fuel}
use cloudshell_shell_automat.Exec.{Exec, Result, ok, err}
use cloudshell_shell_automat.Smb.{SharedFile, SmbCall, SmbCalls, SmbServer}
use cloudshell_shell_automat.SmbHandler.{State, create_dir, get_dir_path, before_last_separator}
use cloudshell_shell_automat.SmbHandler.Paths.{with_parents}
use cloudshell_shell_automat.SmbHandler.Directories.{
  can_create, dirs_after, IsClosed, KeepsDirs, create_dir-with_parents, create_dir-IsClosed,
}
use cloudshell_shell_automat.SmbHandler.CloudShell.{clear_offline_pypi, is_package, file_names}
use cloudshell_shell_automat.SmbHandler.CloudShell.Pypi.{
  deleted, paths_onto, clear_offline_pypi_lem,
}

abbrev root : List String
root = "" ∷ []

abbrev refused : Exc
refused = operation_failure "Failed to create directory" "Create failed"

abbrev accept : SmbCalls → SmbCall → Result (Unit {0})
accept calls (SmbCall.create_directory path) =
    if can_create path (dirs_after root calls) then ok tt else err refused
accept calls c = ok tt

abbrev packages : List SharedFile
packages =
    (record { filename = "."; is_directory = true; last_write_time = 0 })
    ∷ (record { filename = "a.zip"; is_directory = false; last_write_time = 5 })
    ∷ (record { filename = "PlaceHolder.txt"; is_directory = false; last_write_time = 5 })
    ∷ []

abbrev share : SmbServer
share = record { accept = accept; files = λ calls c. ok packages; bytes = λ calls c. ok "" }

abbrev willing_share : SmbServer
willing_share = record share { accept = λ calls c. ok tt }

share_KeepsDirs : KeepsDirs share root "Failed to create directory" "Create failed"
unfolding contains get_dir_path before_last_separator
share_KeepsDirs = record {
  root = refl;
  refusal = refl;
  echoes = λ calls. refl;
  connects = λ calls. refl;
  creates = λ calls path. refl;
}

abbrev try_once : (A : Type 0) → (Exc → Bool) → Exec State A → Exec State A
try_once A retries m = m

abbrev begin : State
begin = record {
  self = record {
    domain = Option.none;
    username = "admin";
    password = "";
    server_ip = "10.0.0.2";
    server_name = "User-PC";
    share = "C$";
    session = false;
  };
  calls = [];
}

create_dir_example :
    ((create_dir share try_once 6 "a/b/c" true begin).0 ≡ ok tt)
    × (dirs_after root (create_dir share try_once 6 "a/b/c" true begin).1.calls
        ≡ with_parents 6 "a/b/c" root)
create_dir_example =
    create_dir-with_parents share root "Failed to create directory" "Create failed" share_KeepsDirs
      try_once (λ A r m s h. refl) 6 "a/b/c" begin (omega arith) refl

with_parents_run : with_parents 6 "a/b/c" root ≡ "a/b/c" ∷ "a/b" ∷ "a" ∷ "" ∷ []
unfolding with_parents get_dir_path before_last_separator
with_parents_run = refl

root_IsClosed : IsClosed root
unfolding get_dir_path before_last_separator
root_IsClosed path h =
    let same : path ≡ "" = (eq_iff path "").0 (ground arith) in
    subst (λ p. elem (get_dir_path p) root ≡ true) (sym same) refl

create_dir_there_example : (create_dir share try_once 7 "" true begin).0 ≡ err no_fuel
create_dir_there_example =
    create_dir-IsClosed share root "Failed to create directory" "Create failed" share_KeepsDirs
      try_once (λ A r m s h. refl) 7 "" begin root_IsClosed refl

clear_example :
    ((clear_offline_pypi willing_share try_once begin).0 ≡ ok tt)
    × (deleted (clear_offline_pypi willing_share try_once begin).1.calls
        ≡ paths_onto (file_names (keep is_package packages)) [])
clear_example =
    clear_offline_pypi_lem willing_share try_once (λ calls c. refl) (λ A r m s h. refl) packages
      begin (λ calls. refl)
