-- ===== src/Tests/Files.antt =====
-- A server of files that has one file, and the tests that save and restore.
use cloudshell_shell_automat.Base.{◌<>◌, ◌≡◌, refl, Bool, false, some, [], ◌∷◌, ◌==◌, if◌then◌else◌}
use cloudshell_shell_automat.Errors.{Exc, ftp_error}
use cloudshell_shell_automat.Exec.{Exec, ok, err}
use cloudshell_shell_automat.Api.{Call}
use cloudshell_shell_automat.Configs.{HostWithUserConfig}
use cloudshell_shell_automat.CsHandler.{add_resource_to_reservation, execute_command_on_resource}
use cloudshell_shell_automat.SandboxHandler.{execute_resource_command}
use cloudshell_shell_automat.ResourceHandler.State.{add_to_reservation}
use cloudshell_shell_automat.ResourceHandler.Commands.{execute_command, save, restore}
use cloudshell_shell_automat.RemoteFiles as Files
use cloudshell_shell_automat.RemoteFiles.{
  FileCall, FileCalls, FileServer, Protocol, get_file_path, read_file, delete_file, read_once,
  delete_once, retry_on_file_not_found,
}
use cloudshell_shell_automat.RemoteFiles.Missing.{
  Tried, Tells, reading, deleting, remote_file-Tells,
}
use cloudshell_shell_automat.TestCases.SaveRestore.{State, folder_path, test_restore}
use cloudshell_shell_automat.TestCases.SaveRestore.Deleting.{last_word, test_restore-delete_file}
use cloudshell_shell_automat.TestCases.Connectivity as Connectivity
use cloudshell_shell_automat.TestCases.Connectivity.{connect_ports, test_connectivity}
use cloudshell_shell_automat.TestCases.Connectivity.Ports.{test_connectivity-removes}
use cloudshell_shell_automat.Tests.{server}
use cloudshell_shell_automat.Tests.Resources.{start}
use cloudshell_shell_automat.Tests.Sandboxes.{sandbox}

abbrev missing : Exc
missing = ftp_error "550 No such file or directory"

abbrev files : FileServer
files = record {
  accept = λ calls c. ok tt;
  bytes = λ calls c. elim c [
    | FileCall.retrieve path ↦ (if path == "r1" then ok "config" else err missing)
    | _ ↦ ok ""
  ];
}

abbrev conf : HostWithUserConfig
conf = record { host_conf = record { host = "10.0.0.3" }; user = some "u"; password = some "p" }

abbrev try_once : (A : Type 0) → (Exc → Bool) → Exec Files.State A → Exec Files.State A
try_once A retries m = m

abbrev begin : Files.State
begin = record { session = false; calls = [] }

remote_file_example :
    let path = get_file_path conf.host_conf "r2" in
    ((t : Files.State) × Tried
        (read_once files conf Protocol.ftp path)
        retry_on_file_not_found
        begin
        t
      × Tells Protocol.ftp path
          (reading files conf Protocol.ftp path t).0
          (read_file files conf try_once Protocol.ftp "r2" begin).0)
    × ((t : Files.State) × Tried
          (delete_once files conf Protocol.ftp path)
          retry_on_file_not_found
          begin
          t
        × Tells Protocol.ftp path
            (deleting files conf Protocol.ftp path t).0
            (delete_file files conf try_once Protocol.ftp "r2" begin).0)
remote_file_example =
    remote_file-Tells files conf try_once (λ A r m s. (s, Tried.first, refl)) Protocol.ftp "r2"
      begin

-- The resource in a sandbox. The server answers each command by "r1".
abbrev testing : State
testing = record {
  handler = record start { self = record start.self { sandbox = some sandbox } };
  files = begin;
}

restore_example :
    ((test_restore server files try_once Protocol.ftp conf "running" "append" testing).1.files
      ≡ (delete_file files conf try_once Protocol.ftp "r1" begin).1)
    × ((test_restore server files try_once Protocol.ftp conf "running" "append" testing).0
        ≡ last_word
            (restore server
              (folder_path Protocol.ftp conf <> ("/" <> "r1"))
              "running"
              "append"
              (save server (folder_path Protocol.ftp conf) "running" testing.handler).1).0
            (delete_file files conf try_once Protocol.ftp "r1" begin).0)
unfolding save execute_command execute_resource_command execute_command_on_resource
restore_example =
    test_restore-delete_file server files try_once Protocol.ftp conf "running" "append" "r1" testing
      refl

abbrev connecting : Connectivity.State
connecting = record { handler = start.self; dut = record start.self { name = "sw" }; calls = [] }

connectivity_example :
    (test_connectivity server sandbox connecting).1.calls
    ≡ Call.remove_resources_from_reservation "r1" ("sw" ∷ [])
      ∷ (connect_ports server sandbox start.self
          (record start.self { name = "sw"; sandbox = some sandbox })
          (Call.add_resources_to_reservation "r1" ("sw" ∷ []) ∷ [])).1
unfolding add_to_reservation add_resource_to_reservation
connectivity_example = test_connectivity-removes server sandbox connecting refl
