-- ===== src/Downloads/Once.antt =====
-- A file is downloaded once, and what was downloaded is removed at the end.
use cloudshell_shell_automat.Base.{
  String, ◌≡◌, refl, ap, ◌∙◌, true, none, List, [], ◌∷◌, ◌++◌, arith,
}
use cloudshell_shell_automat.Exec.{ok, for_each, >>=-eq-ok}
use cloudshell_shell_automat.Downloads.{
  Act, Acts, Machine, State, Downloading, is_url, get_tmp_dir, local_path, get_path, remove_file,
  remove_downloaded_files,
}

module _ (machine : Machine) where
  -- If the path of a new URL is read, then the file was downloaded to it by the last act and noted for
  -- removal; read again, the path is the same, and nothing is done.
  pub get_path_once :
      (d : Downloading) (path : String)
      → d.file.cached ≡ none
      → is_url d.file.original_path ≡ true
      → (get_path machine d).0 ≡ ok path
      → let url = d.file.original_path in
        let after = (get_path machine d).1 in
        (path ≡ local_path machine url)
        × (after.state.acts ≡ Act.urlretrieve url path ∷ (get_tmp_dir machine d).1.state.acts)
        × (after.state.downloaded_files ≡ d.state.downloaded_files ++ (path ∷ []))
        × (get_path machine after ≡ (ok path, after))
  unfolding get_path get_tmp_dir
  get_path_once d path new url h = ground (arith, new, url, h)

  abbrev unlinked : List String → Acts → Acts
  unlinked [] acts = acts
  unlinked (p ∷ ps) acts = unlinked ps (Act.unlink p ∷ acts)

  remove_file-acts :
      (p : String) (acts : Acts) → (remove_file machine p acts).1 ≡ Act.unlink p ∷ acts
  unfolding remove_file
  remove_file-acts p acts = ground arith

  removes_each :
      (paths : List String) (acts : Acts)
      → (for_each paths (remove_file machine) acts).0 ≡ ok tt
      → (for_each paths (remove_file machine) acts).1 ≡ unlinked paths acts
  unfolding for_each
  removes_each [] acts h = refl
  removes_each (p ∷ ps) acts h =
      let (u, _, e, h1) =
        >>=-eq-ok (remove_file machine p) (λ _. for_each ps (remove_file machine)) acts h in
      ap (λ r. r.1) e
      ∙ removes_each ps (remove_file machine p acts).1 h1
      ∙ ap (unlinked ps) (remove_file-acts p acts)

  -- If the removal at the end of the program returns, then it asked to remove each path that was
  -- noted, in order.
  pub remove_downloaded_files_lem :
      (s : State)
      → (remove_downloaded_files machine s).0 ≡ ok tt
      → (remove_downloaded_files machine s).1 ≡ unlinked s.downloaded_files s.acts
  unfolding remove_downloaded_files
  remove_downloaded_files_lem s h = removes_each s.downloaded_files s.acts h
