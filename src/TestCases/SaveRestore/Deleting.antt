-- ===== src/TestCases/SaveRestore/Deleting.antt =====
-- What a test leaves behind on the server of files.
use cloudshell_shell_automat.Base.{String, ◌<>◌, ◌≡◌, ◌↔◌, Bool, false, inl, inr, is_blank, arith}
use cloudshell_shell_automat.Errors.{Exc}
use cloudshell_shell_automat.Exec.{Exec, Result, Result-cases, ok, err}
use cloudshell_shell_automat.Api.{Api}
use cloudshell_shell_automat.Configs.{HostWithUserConfig}
use cloudshell_shell_automat.ResourceHandler.Commands.{save, restore}
use cloudshell_shell_automat.RemoteFiles as Files
use cloudshell_shell_automat.RemoteFiles.{FileServer, Protocol, read_file, delete_file}
use cloudshell_shell_automat.TestCases.SaveRestore.{
  State, check_and_delete, folder_path, test_save, test_restore,
}

-- How two statements end, of which the second replaces the result of the first if it raises.
abbrev pub last_word : {A : Type 0} → Result A → Result (Unit {0}) → Result (Unit {0})
last_word r (err e) = err e
last_word (err e) (ok u) = err e
last_word (ok a) (ok u) = ok tt

module _ (api : Api) (server : FileServer)
    (retry : (A : Type 0) → (Exc → Bool) → Exec Files.State A → Exec Files.State A) (p : Protocol)
    (conf : HostWithUserConfig) where
  -- If the save returns the name of a file, then however the restore of it ends, the test asks the
  -- handler of files, exactly once, to delete that file. An exception of that is the test's;
  -- otherwise the test raises what the restore raised, or passes.
  pub test_restore-delete_file :
      (configuration_type restore_method file_name : String) (s : State)
      → (save api (folder_path p conf) configuration_type s.handler).0 ≡ ok file_name
      → ((test_restore api server retry p conf configuration_type restore_method s).1.files
          ≡ (delete_file server conf retry p file_name s.files).1)
        × ((test_restore api server retry p conf configuration_type restore_method s).0
            ≡ last_word
                (restore api
                  (folder_path p conf <> ("/" <> file_name))
                  configuration_type
                  restore_method
                  (save api (folder_path p conf) configuration_type s.handler).1).0
                (delete_file server conf retry p file_name s.files).0)
  unfolding test_restore
  test_restore-delete_file configuration_type restore_method file_name s h = ground arith

  -- The part behind the save, by its parts.
  checked :
      (file_name : String) (s : State)
      → (check_and_delete api server retry p conf file_name s).0 ≡ ok tt
      → (content : String) × ((read_file server conf retry p file_name s.files).0 ≡ ok content)
        × (is_blank content ≡ false)
        × ((delete_file server conf retry p file_name
              (read_file server conf retry p file_name s.files).1).0
            ≡ ok tt)
  checked file_name s h = elim (Result-cases (read_file server conf retry p file_name s.files).0) [
    | inr (e, bad) ↦ absurd (ground (arith, bad, h))
    | inl (content, got) ↦ (content, got, ground (arith, got, h), ground (arith, got, h))
  ]

  -- The test of a save passes exactly if the save returns a name, the handler of files then reads
  -- something under this name that is not empty, and its `delete_file` returns, which with TFTP leaves
  -- the file there.
  pub test_save_iff :
      (configuration_type : String) (s : State)
      → ((test_save api server retry p conf configuration_type s).0 ≡ ok tt) ↔ (
          (file_name : String) × (content : String) × ((save api
              (folder_path p conf)
              configuration_type
              s.handler).0
            ≡ ok file_name)
          × ((read_file server conf retry p file_name s.files).0 ≡ ok content)
          × (is_blank content ≡ false)
          × ((delete_file server conf retry p file_name
                (read_file server conf retry p file_name s.files).1).0
              ≡ ok tt))
  unfolding test_save
  test_save_iff configuration_type s = (
    λ h. elim (Result-cases (save api (folder_path p conf) configuration_type s.handler).0) [
      | inr (e, bad) ↦ absurd (ground (arith, bad, h))
      | inl (file_name, saved) ↦
          let after : State = record s {
            handler = (save api (folder_path p conf) configuration_type s.handler).1;
          } in
          let (content, got, filled, gone) = checked file_name after (ground (arith, saved, h)) in
          (file_name, content, saved, got, filled, gone)
    ],
    λ (file_name, content, a, b, c, d). ground arith,
  )
