-- ===== src/SmbHandler/CloudShell/Pypi.antt =====
-- The offline PyPI of a server: `clear_offline_pypi` and `add_extra_standards`.
use cloudshell_shell_automat.Base.{
  String, ◌<>◌, ◌≡◌, ◌∙◌, refl, ap, Bool, false, List, [], ◌∷◌, keep, arith, if◌then◌else◌,
}
use cloudshell_shell_automat.Errors.{Exc}
use cloudshell_shell_automat.Exec.{Exec, ok, pure, raise, catch, for_each, ◌>>=◌}
use cloudshell_shell_automat.Smb.{SharedFile, SmbCall, SmbCalls, SmbServer}
use cloudshell_shell_automat.SmbHandler.{
  State, is_entry, fails_with_message, session, test_session, open_session, retry_on, in_session,
  remove_file, ls,
}
use cloudshell_shell_automat.SmbHandler.Directories.{TriesOnce}
use cloudshell_shell_automat.SmbHandler.CloudShell.{
  cs_pypi_path, file_names, is_package, clear_offline_pypi, remove_file_from_offline_pypi,
  get_file_names_from_offline_pypi,
}

-- What the calls ask the share to delete, the latest first.
abbrev pub deleted : SmbCalls → List String
deleted [] = []
deleted (SmbCall.delete_files path ∷ calls) = path ∷ deleted calls
deleted (c ∷ calls) = deleted calls

-- The names behind the path of the offline PyPI, in reverse, in front of others.
abbrev pub paths_onto : List String → List String → List String
paths_onto [] onto = onto
paths_onto (name ∷ names) onto = paths_onto names ((cs_pypi_path <> name) ∷ onto)

-- A share that refuses no call.
abbrev pub IsWilling : SmbServer → Type 0
IsWilling server = (calls : SmbCalls) (c : SmbCall) → server.accept calls c ≡ ok tt

-- No package has a name that `ls` leaves out.
keep-keep :
    (files : List SharedFile) → keep is_package (keep is_entry files) ≡ keep is_package files
keep-keep [] = refl
keep-keep (f ∷ files) = ground (arith, keep-keep files)

behind :
    {A : Type 0} {B : Type 0} (m : Exec State A) (k : A → Exec State B) (s : State) (a : A)
    → (m s).0 ≡ ok a
    → (m >>= k) s ≡ k a (m s).1
behind m k s a h = ground arith

module _ (server : SmbServer) (retry : (A : Type 0) → (Exc → Bool) → Exec State A → Exec State A)
    (willing : IsWilling server) (once : TriesOnce retry) where
  -- A method that went well, and what was deleted after it.
  abbrev Deleted : {A : Type 0} → Exec State A → A → State → List String → Type 0
  Deleted m a s paths = ((m s).0 ≡ ok a) × (deleted (m s).1.calls ≡ paths)

  then_Deleted :
      {A : Type 0} {B : Type 0} (m : Exec State A) (k : A → Exec State B) (a : A) (b : B)
      (s : State) (paths : List String)
      → (m s).0 ≡ ok a
      → Deleted (k a) b (m s).1 paths
      → Deleted (m >>= k) b s paths
  then_Deleted m k a b s paths h (done, d) =
      let go = behind m k s a h in (ap (λ r. r.0) go ∙ done, ap (λ r. deleted r.1.calls) go ∙ d)

  session_works : (s : State) → Deleted (session server) tt s (deleted s.calls)
  unfolding session test_session open_session
  session_works s =
      ground (arith, willing s.calls SmbCall.echo, willing s.calls (SmbCall.connect false))

  removed :
      (path : String) (s : State)
      → Deleted
          (in_session server server.accept (SmbCall.delete_files path))
          tt
          s
          (path ∷ deleted s.calls)
  removed path s =
      ground
        (arith, session_works s, willing (session server s).1.calls (SmbCall.delete_files path))

  remove_file_from_offline_pypi-Deleted :
      (name : String) (s : State)
      → Deleted
          (remove_file_from_offline_pypi server retry name)
          tt
          s
          ((cs_pypi_path <> name) ∷ deleted s.calls)
  unfolding remove_file_from_offline_pypi remove_file
  remove_file_from_offline_pypi-Deleted name s =
      let path = cs_pypi_path <> name in
      let call = in_session server server.accept (SmbCall.delete_files path) in
      let here = removed path s in rw (once (Unit {0}) retry_on call s (ground (arith, here))) here

  remove_each :
      (names : List String) (s : State)
      → Deleted
          (for_each names (remove_file_from_offline_pypi server retry))
          tt
          s
          (paths_onto names (deleted s.calls))
  unfolding for_each
  remove_each [] s = (refl, refl)
  remove_each (name ∷ names) s =
      let remove = remove_file_from_offline_pypi server retry in
      let (done, d) = remove_file_from_offline_pypi-Deleted name s in
      let (rest, e) = remove_each names (remove name s).1 in
      then_Deleted (remove name) (λ _. for_each names remove) tt tt s
        (paths_onto names ((cs_pypi_path <> name) ∷ deleted s.calls)) done
        (rest, e ∙ ap (paths_onto names) d)

  abbrev pypi_listing : Exec State (List SharedFile)
  pypi_listing = do
    found ←
        catch (in_session server server.files (SmbCall.list_path cs_pypi_path))
          (λ e. if fails_with_message "Unable to open directory" e then pure [] else raise e)
    pure (keep is_entry found)

  listing :
      (files : List SharedFile) (s : State)
      → ((calls : SmbCalls) → server.files calls (SmbCall.list_path cs_pypi_path) ≡ ok files)
      → Deleted pypi_listing (keep is_entry files) s (deleted s.calls)
  listing files s listed = ground (arith, session_works s, listed (session server s).1.calls)

  names_listed :
      (files : List SharedFile) (s : State)
      → ((calls : SmbCalls) → server.files calls (SmbCall.list_path cs_pypi_path) ≡ ok files)
      → Deleted
          (get_file_names_from_offline_pypi server retry)
          (file_names (keep is_package files))
          s
          (deleted s.calls)
  unfolding get_file_names_from_offline_pypi ls
  names_listed files s listed =
      let m = pypi_listing in
      let here = listing files s listed in
      let found = rw (← once (List SharedFile) retry_on m s (ground (arith, here))) at here in
      (ground (arith, found, keep-keep files), ground (arith, found))

  -- With a decorator that does not try again what ended without an exception to be tried again: if the
  -- share accepts each call, and lists these files in the directory of the offline PyPI whenever it is
  -- asked, then `clear_offline_pypi` returns and has asked to delete, in the order of the list, exactly
  -- the files of that directory but `.`, `..` and `PlaceHolder.txt`, and nothing else.
  pub clear_offline_pypi_lem :
      (files : List SharedFile) (s : State)
      → ((calls : SmbCalls) → server.files calls (SmbCall.list_path cs_pypi_path) ≡ ok files)
      → ((clear_offline_pypi server retry s).0 ≡ ok tt)
        × (deleted (clear_offline_pypi server retry s).1.calls
            ≡ paths_onto (file_names (keep is_package files)) (deleted s.calls))
  unfolding clear_offline_pypi
  clear_offline_pypi_lem files s listed =
      let names = file_names (keep is_package files) in
      let listing = get_file_names_from_offline_pypi server retry in
      let (got, same) = names_listed files s listed in
      let (done, d) = remove_each names (listing s).1 in
      then_Deleted listing (λ names. for_each names (remove_file_from_offline_pypi server retry))
        names tt s (paths_onto names (deleted s.calls)) got (done, d ∙ ap (paths_onto names) same)
