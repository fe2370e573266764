-- ===== src/EntryPoints/Clearing.antt =====
-- What a run on a CloudShell made is cleared up.
use cloudshell_shell_automat.Base.{List}
use cloudshell_shell_automat.SandboxHandler.{SandboxHandler}
use cloudshell_shell_automat.HandlerStorage.{Stored}
use cloudshell_shell_automat.HandlerStorage as Storage
