-- ===== src/HandlerStorage/Offline.antt =====
-- The handler of the share as the handlers of Shells take it (`CloudShellSmb` of ShellHandler). What
-- it does is noted with the calls of the share, and no call of the CloudShell server is among it; so
-- the share's state is any function of the calls of the server. The archives and the paths of local
-- files are parameters, as in SmbHandler.CloudShell.
use cloudshell_shell_automat.Base.{String, List, some, map}
use cloudshell_shell_automat.Errors.{Exc}
use cloudshell_shell_automat.Base.{Bool}
use cloudshell_shell_automat.Exec.{Exec}
use cloudshell_shell_automat.Api.{Calls}
use cloudshell_shell_automat.Smb.{SmbServer}
use cloudshell_shell_automat.SmbHandler.{State}
use cloudshell_shell_automat.SmbHandler.CloudShell.{
  LocalFile, add_dependencies_to_offline_pypi, add_extra_standards, clear_offline_pypi,
}
use cloudshell_shell_automat.ShellHandler.{CloudShellSmb}
use cloudshell_shell_automat.HandlerStorage.Finishing.{ClearGrows}

module _ (server : SmbServer) (retry : (A : Type 0) → (Exc → Bool) → Exec State A → Exec State A)
    (archive : String → List (String × String)) (local_file : String → LocalFile)
    (share : Calls → State) where
  abbrev on_share : Exec State (Unit {0}) → Exec Calls (Unit {0})
  on_share m calls = ((m (share calls)).0, calls)

  unfoldable pub of_share : CloudShellSmb
  unfolding add_dependencies_to_offline_pypi add_extra_standards clear_offline_pypi
  of_share = record {
    add_dependencies_to_offline_pypi =
        λ path. on_share (add_dependencies_to_offline_pypi server retry (archive path));
    add_extra_standards =
        λ paths. on_share (add_extra_standards server retry (map local_file paths));
    clear_offline_pypi = on_share (clear_offline_pypi server retry);
  }

  -- Clearing the offline PyPI by the handler of the share takes back no call of the server.
  pub of_share-ClearGrows : ClearGrows (some of_share)
  unfolding of_share
  of_share-ClearGrows calls c made = made
