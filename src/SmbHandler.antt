-- ===== src/SmbHandler.antt =====
-- shell_tests/handlers/smb_handler.py: `SmbHandler`. The decorator of the package `retrying` is a
-- parameter. Paths and bytes are texts; paths have one line.
pub mod Paths
pub mod Directories
pub mod CloudShell
use Prim.Native.String.{[], ◌∷◌}
use cloudshell_shell_automat.Base.{
  String, Char, code, ℕ, zero, suc, ◌<>◌, ◌==◌, ◌=?◌, Bool, true, false, not, ◌&&◌, ◌||◌, Option,
  none, some, List, contains, split, is_blank, keep, if◌then◌else◌,
}
use cloudshell_shell_automat.Errors.{
  Exc, operation_failure, not_connected, not_ready, smb_timeout, is_exception, str_of, no_fuel,
}
use cloudshell_shell_automat.Exec.{
  Exec, Result, ok, err, pure, raise, catch, modify, when, skip, for_each, ◌>>=◌, ◌>>◌,
}
use cloudshell_shell_automat.Smb.{SharedFile, SmbCall, SmbCalls, SmbServer}

-- `_domain` is a list of texts, or the empty text.
pub record SmbHandler : Type 0 where
  pub domain : Option (List String)
  pub username : String
  pub password : String
  pub server_ip : String
  pub server_name : String
  pub share : String
  -- `_session` is there
  pub session : Bool

-- A handler, and the calls made so far.
pub record State : Type 0 where
  pub self : SmbHandler
  pub calls : SmbCalls

-- `__init__`. The conditional stands inside the pair, so the name is kept whole.
unfoldable pub init : String → String → String → String → String → SmbHandler
unfolding contains split
init username password ip server_name share = record {
  domain = if contains "\\" username then some (split b'\\' username) else none;
  username = username;
  password = password;
  server_ip = ip;
  server_name = server_name;
  share = share;
  session = false;
}

-- A call is noted, whatever its reply.
abbrev pub perform : {A : Type 0} → (SmbCalls → SmbCall → Result A) → SmbCall → Exec State A
perform reply c s = (reply s.calls c, record s { calls = List.◌∷◌ c s.calls })

abbrev set_session : Bool → Exec State (Unit {0})
set_session b = modify (λ s. record s { self = record (s.self) { session = b } })

unfoldable pub retry_on : Exc → Bool
retry_on not_ready = true
retry_on smb_timeout = true
retry_on _ = false

abbrev is_not_connected : Exc → Bool
is_not_connected not_connected = true
is_not_connected _ = false

-- `e` is an `OperationFailure` with this text in `str(e)`.
unfoldable pub fails_with : String → Exc → Bool
unfolding contains
fails_with part (operation_failure message text) = contains part text
fails_with part _ = false

-- The same with this text in `e.message`.
unfoldable pub fails_with_message : String → Exc → Bool
unfolding contains
fails_with_message part (operation_failure message text) = contains part message
fails_with_message part _ = false

abbrev is_separator : Char → Bool
is_separator c = code c =? b'\\' || code c =? b'/'

abbrev before_or : Bool → Char → Option String → Option String
before_or here c (some a) = some (c ∷ a)
before_or true c none = some []
before_or false c none = none

-- The group 1 of `^(.*)[\\/](.*?)$`: what precedes the last separator.
unfoldable pub before_last_separator : String → Option String
before_last_separator [] = none
before_last_separator (c ∷ s) = before_or (is_separator c) c (before_last_separator s)

abbrev or_empty : Option String → String
or_empty none = ""
or_empty (some s) = s

unfoldable pub get_dir_path : String → String
unfolding before_last_separator
get_dir_path path = or_empty (before_last_separator path)

ends_with_slash : String → Bool
ends_with_slash [] = false
ends_with_slash (c ∷ []) = code c =? b'/'
ends_with_slash (c ∷ d ∷ s) = ends_with_slash (d ∷ s)

-- `os.path.join(a, b)` for a `b` that does not begin with a slash
unfoldable pub join_path : String → String → String
unfolding ends_with_slash
join_path a b = if is_blank a || ends_with_slash a then a <> b else a <> ("/" <> b)

abbrev is_entry : SharedFile → Bool
is_entry f = not (f.filename == "." || f.filename == "..")

module _ (server : SmbServer) where
  -- What precedes the second `if` of the property `session`.
  unfoldable pub test_session : Exec State (Unit {0})
  unfolding is_exception
  test_session s =
      if s.self.session
      then catch (perform server.accept SmbCall.echo)
          (λ e. if is_exception e then set_session false else raise e) s
      else (ok tt, s)

  unfoldable pub open_session : Exec State (Unit {0})
  open_session s =
      if s.self.session
      then (ok tt, s)
      else catch (set_session true >> perform server.accept (SmbCall.connect false))
          (λ e.
            if is_not_connected e
            then set_session true >> perform server.accept (SmbCall.connect true)
            else raise e)
          s

  unfoldable pub session : Exec State (Unit {0})
  unfolding test_session open_session
  session = test_session >> open_session

  -- A call of a method of the session.
  abbrev pub in_session : {A : Type 0} → (SmbCalls → SmbCall → Result A) → SmbCall → Exec State A
  in_session reply c = session >> perform reply c

  module _ (retry : (A : Type 0) → (Exc → Bool) → Exec State A → Exec State A) where
    unfoldable pub ls : String → Exec State (List SharedFile)
    unfolding session retry_on fails_with_message
    ls path = retry (List SharedFile) retry_on (do
      files ←
          catch (in_session server.files (SmbCall.list_path path))
            (λ e. if fails_with_message "Unable to open directory" e then pure List.[] else raise e)
      pure (keep is_entry files))

    -- The recursion, with a bound on its depth.
    unfoldable pub create_dir : ℕ → String → Bool → Exec State (Unit {0})
    unfolding session retry_on fails_with get_dir_path
    create_dir zero path parents = raise no_fuel
    create_dir (suc n) path parents =
        let above = create_dir n (get_dir_path path) parents in
        retry (Unit {0}) retry_on (
          catch (in_session server.accept (SmbCall.create_directory path)) (λ e.
            if parents && fails_with "Create failed" e
            then above >> in_session server.accept (SmbCall.create_directory path)
            else raise e))

    unfoldable pub put_file_obj : ℕ → String → String → Bool → Exec State (Unit {0})
    unfolding session retry_on fails_with get_dir_path create_dir
    put_file_obj fuel path file_obj create_dirs = retry (Unit {0}) retry_on (
        catch (in_session server.accept (SmbCall.store_file path file_obj)) (λ e.
          if create_dirs && fails_with "Unable to open file" e
          then create_dir fuel (get_dir_path path) true
            >> in_session server.accept (SmbCall.store_file path file_obj)
          else raise e))

    unfoldable pub put_file_path : ℕ → String → String → Bool → Exec State (Unit {0})
    unfolding put_file_obj
    put_file_path fuel path l_path create_dirs = do
      file_obj ← perform server.bytes (SmbCall.read_local l_path)
      put_file_obj fuel path file_obj create_dirs

    unfoldable pub remove_file : String → Exec State (Unit {0})
    unfolding session retry_on
    remove_file path =
        retry (Unit {0}) retry_on (in_session server.accept (SmbCall.delete_files path))

    unfoldable pub get_r_file : String → Exec State String
    unfolding session retry_on
    get_r_file path = retry String retry_on (in_session server.bytes (SmbCall.retrieve_file path))

    -- The local file is opened first, which makes it empty.
    unfoldable pub download_r_file : String → String → Exec State (Unit {0})
    unfolding get_r_file
    download_r_file path l_path = do
      perform server.accept (SmbCall.write_local l_path "")
      bytes ← get_r_file path
      perform server.accept (SmbCall.write_local l_path bytes)

    -- The recursion into directories, with a bound on its depth. It does not pass the filter on.
    unfoldable pub download_r_dir :
        ℕ → String → String → (SharedFile → Bool) → Exec State (Unit {0})
    unfolding ls download_r_file join_path for_each
    download_r_dir zero path l_path filter_fn = raise no_fuel
    download_r_dir (suc n) path l_path filter_fn =
        let below = λ (r l : String). download_r_dir n r l (λ f. true) in
        ls path >>= λ files. for_each files λ f.
          let remote = join_path path f.filename in
          let local = join_path l_path f.filename in
          if not (filter_fn f)
          then skip
          else if f.is_directory
          then perform server.accept (SmbCall.make_dir local) >> below remote local
          else download_r_file remote local
