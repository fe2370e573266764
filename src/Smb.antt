-- ===== src/Smb.antt =====
-- What the program asks of a file share: the connection of the third-party package pysmb, and the
-- local disk. A reply may depend on all calls made before, so an `SmbServer` stands for any share.
use cloudshell_shell_automat.Base.{String, ℕ, Bool, List}
use cloudshell_shell_automat.Exec.{Result}

-- pysmb's `SharedFile`. The time is in seconds.
pub record SharedFile : Type 0 where
  pub filename : String
  pub is_directory : Bool
  pub last_write_time : ℕ

pub data SmbCall : Type 0 where
  -- a new `SMBConnection`, and its `connect`; with `is_direct_tcp` or not
  connect : Bool → SmbCall
  echo : SmbCall
  list_path create_directory delete_files retrieve_file : String → SmbCall
  store_file : String → String → SmbCall
  -- the local disk
  make_dir remove_tree read_local : String → SmbCall
  write_local : String → String → SmbCall

-- The calls made so far, the latest first.
abbrev pub SmbCalls : Type 0
SmbCalls = List SmbCall

pub record SmbServer : Type 0 where
  -- a call with no result that is used
  pub accept : SmbCalls → SmbCall → Result (Unit {0})
  pub files : SmbCalls → SmbCall → Result (List SharedFile)
  -- a call for the bytes of a file
  pub bytes : SmbCalls → SmbCall → Result String
