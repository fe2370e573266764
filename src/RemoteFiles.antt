-- ===== src/RemoteFiles.antt =====
-- The handlers of files on a server: shell_tests/handlers/abc_remote_file_handler.py,
-- ftp_handler.py, scp_handler.py and tftp_handler.py. The clients (ftplib, paramiko, tftpy) are a
-- parameter that answers by the history of calls, and so is the decorator of the package `retrying`.
pub mod Missing
use cloudshell_shell_automat.Base.{
  String, ◌<>◌, Bool, true, false, ◌&&◌, ◌||◌, Option, none, some, List, [], ◌∷◌, contains,
  starts_with, is_blank, if◌then◌else◌,
}
use cloudshell_shell_automat.Errors.{
  Exc, ftp_error, os_error, file_not_found, remote_file_not_found, is_exception, str_of,
}
use cloudshell_shell_automat.Exec.{
  Exec, Result, ok, err, pure, raise, catch, modify, when, skip, ◌>>=◌, ◌>>◌,
}
use cloudshell_shell_automat.Configs.{HostConfig, HostWithUserConfig}
use cloudshell_shell_automat.Configs.Hosts.{netloc, path}
use cloudshell_shell_automat.SandboxHandler.{text_or_empty, is_given}

pub data FileCall : Type 0 where
  -- a new client for a host, and a login
  connect : String → FileCall
  login : String → String → FileCall
  -- the listing that tests a session
  list : FileCall
  retrieve delete : String → FileCall

-- The calls made so far, the latest first.
abbrev pub FileCalls : Type 0
FileCalls = List FileCall

pub record FileServer : Type 0 where
  pub accept : FileCalls → FileCall → Result (Unit {0})
  pub bytes : FileCalls → FileCall → Result String

-- The three handlers. The configuration of TFTP has no user.
pub data Protocol : Type 0 where
  ftp scp tftp : Protocol

-- `_session` is there, and the calls.
pub record State : Type 0 where
  pub session : Bool
  pub calls : FileCalls

abbrev perform : {A : Type 0} → (FileCalls → FileCall → Result A) → FileCall → Exec State A
perform reply c s = (reply s.calls c, record s { calls = c ∷ s.calls })

abbrev keep_session : Exec State (Unit {0})
keep_session = modify (λ s. record s { session = true })

-- `AbcRemoteFileHandler._get_file_path`
unfoldable pub get_file_path : HostConfig → String → String
unfolding path
get_file_path conf file_name =
    if is_blank (path conf) then file_name else path conf <> ("/" <> file_name)

-- `_retry_on_file_not_found`
unfoldable pub retry_on_file_not_found : Exc → Bool
retry_on_file_not_found (remote_file_not_found name) = true
retry_on_file_not_found _ = false

-- `ftplib.Error`
unfoldable pub is_ftp_error : Exc → Bool
is_ftp_error (ftp_error m) = true
is_ftp_error _ = false

-- `ftplib.Error`, `OSError` and `socket.timeout`
unfoldable pub is_session_error : Exc → Bool
is_session_error (ftp_error m) = true
is_session_error (os_error m) = true
is_session_error (file_not_found m) = true
is_session_error _ = false

-- `FileNotFoundError`
unfoldable pub is_file_not_found : Exc → Bool
is_file_not_found (file_not_found m) = true
is_file_not_found _ = false

-- The exceptions that a handler takes to say that the file is not there.
unfoldable pub says_missing : Protocol → Exc → Bool
unfolding is_ftp_error is_file_not_found is_exception contains
says_missing Protocol.ftp e = is_ftp_error e && starts_with (str_of e) "550 No such file"
says_missing Protocol.scp e =
    is_file_not_found e || (is_exception e && contains "No such file" (str_of e))
says_missing Protocol.tftp e = is_exception e && starts_with (str_of e) "No such file"

-- The `except` clauses.
abbrev translate : Protocol → String → Exc → Exc
translate p file_path e = if says_missing p e then remote_file_not_found file_path else e

module _ (server : FileServer) (conf : HostWithUserConfig) where
  -- `_is_session_alive`
  unfoldable pub is_session_alive : Exec State Bool
  unfolding is_session_error
  is_session_alive =
      catch (perform server.accept FileCall.list >> pure true)
        (λ e. if is_session_error e then pure false else raise e)

  abbrev has_login : Bool
  has_login = is_given conf.user && is_given conf.password

  new_ftp_session : Exec State (Unit {0})
  new_ftp_session =
      perform server.accept (FileCall.connect conf.host_conf.host)
      >> keep_session
      >> when has_login (
          perform server.accept
            (FileCall.login (text_or_empty conf.user) (text_or_empty conf.password)))

  -- What follows a test of the session.
  abbrev unless_alive : Bool → Exec State (Unit {0})
  unless_alive true = skip
  unless_alive false = new_ftp_session

  ftp_session : Exec State (Unit {0})
  unfolding new_ftp_session is_session_alive
  ftp_session s = if s.session then (is_session_alive >>= unless_alive) s else new_ftp_session s

  -- `session` of SCP, a cached property
  scp_session : Exec State (Unit {0})
  unfolding netloc
  scp_session s =
      if s.session
      then (ok tt, s)
      else (perform server.accept (FileCall.connect (netloc conf.host_conf))
            >> perform server.accept
                (FileCall.login (text_or_empty conf.user) (text_or_empty conf.password))
            >> keep_session)
          s

  tftp_session : Exec State (Unit {0})
  tftp_session s =
      if s.session
      then (ok tt, s)
      else (perform server.accept (FileCall.connect conf.host_conf.host) >> keep_session) s

  unfoldable pub session : Protocol → Exec State (Unit {0})
  unfolding ftp_session scp_session tftp_session
  session Protocol.ftp = ftp_session
  session Protocol.scp = scp_session
  session Protocol.tftp = tftp_session

  -- The body of `_read_file`.
  unfoldable pub read_once : Protocol → String → Exec State String
  unfolding session says_missing
  read_once p file_path =
      catch (session p >> perform server.bytes (FileCall.retrieve file_path))
        (λ e. raise (translate p file_path e))

  -- The body of `_delete_file`. With TFTP it only logs.
  unfoldable pub delete_once : Protocol → String → Exec State (Unit {0})
  unfolding session says_missing
  delete_once Protocol.tftp file_path = skip
  delete_once p file_path =
      catch (session p >> perform server.accept (FileCall.delete file_path))
        (λ e. raise (translate p file_path e))

  module _ (retry : (A : Type 0) → (Exc → Bool) → Exec State A → Exec State A) where
    unfoldable pub read_file : Protocol → String → Exec State String
    unfolding read_once get_file_path retry_on_file_not_found
    read_file p file_name =
        retry String retry_on_file_not_found (read_once p (get_file_path conf.host_conf file_name))

    unfoldable pub delete_file : Protocol → String → Exec State (Unit {0})
    unfolding delete_once get_file_path retry_on_file_not_found
    delete_file p file_name =
        retry (Unit {0}) retry_on_file_not_found
          (delete_once p (get_file_path conf.host_conf file_name))
