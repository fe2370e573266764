-- ===== src/RemoteFiles/Missing.antt =====
-- Files that are not there: what `_read_file` and `_delete_file` raise.
use cloudshell_shell_automat.Base.{
  String, ◌≡◌, ◌∙◌, refl, ap, Bool, Bool-cases, true, ◌⊎◌, inl, inr, contains, starts_with, arith,
}
use text.Mathlib.TextEquality.{starts_with_iff}
use text.Mathlib.TextBridge.{IsPrefix}
use mathlib.Core.Path.{subst}
use cloudshell_shell_automat.Errors.{
  Exc, ftp_error, file_not_found, remote_file_not_found, is_exception, str_of,
}
use cloudshell_shell_automat.Exec.{Exec, Result, Result-cases, ok, err, raise, catch, skip, ◌>>◌}
use cloudshell_shell_automat.Configs.{HostWithUserConfig}
use cloudshell_shell_automat.RemoteFiles.{
  Protocol, State, FileServer, FileCall, perform, session, retry_on_file_not_found, get_file_path,
  is_ftp_error, is_file_not_found, says_missing, translate, read_once, delete_once, read_file,
  delete_file,
}

-- The states in which a retried method tries: the first, and behind a try whose exception is one to
-- try again for, the state that this try left.
pub data Tried {A : Type 0} (m : Exec State A) (retries : Exc → Bool) (s : State)
    : State → Type 0 where
  first : Tried m retries s s
  again :
      (t : State) (e : Exc)
      → Tried m retries s t
      → (m t).0 ≡ err e
      → retries e ≡ true
      → Tried m retries s (m t).1

-- A retried method ends as one of its tries. This is what the documentation of `retrying` says.
abbrev pub EndsAsATry : ((A : Type 0) → (Exc → Bool) → Exec State A → Exec State A) → Type 1
EndsAsATry retry =
    (A : Type 0) (retries : Exc → Bool) (m : Exec State A) (s : State)
    → (t : State) × Tried m retries s t × (retry A retries m s ≡ m t)

-- What says that a file is missing: with FTP an `ftplib.Error` that begins with the code and the text,
-- with SCP a `FileNotFoundError` or an `Exception` with the text in it, with TFTP an `Exception` that
-- begins with the text.
abbrev pub Missing : Protocol → Exc → Type 0
Missing Protocol.ftp e =
    (message : String) × (e ≡ ftp_error message) × IsPrefix "550 No such file" message
Missing Protocol.scp e =
    ((message : String) × (e ≡ file_not_found message))
    ⊎ ((is_exception e ≡ true) × (contains "No such file" (str_of e) ≡ true))
Missing Protocol.tftp e = (is_exception e ≡ true) × IsPrefix "No such file" (str_of e)

-- How a method ends, by how what it asked for ended.
abbrev pub Tells : {A : Type 0} → Protocol → String → Result A → Result A → Type 0
Tells p file_path (ok a) told = told ≡ ok a
Tells p file_path (err e) told =
    (Missing p e × (told ≡ err (remote_file_not_found file_path)))
    ⊎ ((¬ Missing p e) × (told ≡ err e))

is_ftp_error-ftp_error : (e : Exc) → is_ftp_error e ≡ true → (m : String) × (e ≡ ftp_error m)
unfolding is_ftp_error
is_ftp_error-ftp_error (ftp_error m) h = (m, refl)
is_ftp_error-ftp_error _ h = absurd (cc h)

is_file_not_found-file_not_found :
    (e : Exc) → is_file_not_found e ≡ true → (m : String) × (e ≡ file_not_found m)
unfolding is_file_not_found
is_file_not_found-file_not_found (file_not_found m) h = (m, refl)
is_file_not_found-file_not_found _ h = absurd (cc h)

says_missing_sound : (p : Protocol) (e : Exc) → says_missing p e ≡ true → Missing p e
unfolding says_missing str_of
says_missing_sound Protocol.ftp e h =
    let (m, same) = is_ftp_error-ftp_error e (ground (arith, h)) in
    let begins : starts_with (str_of e) "550 No such file" ≡ true = ground (arith, h) in
    (
      m,
      same,
      (starts_with_iff m "550 No such file").0
          (subst (λ x. starts_with (str_of x) "550 No such file" ≡ true) same begins),
    )
says_missing_sound Protocol.scp e h = elim (Bool-cases (is_file_not_found e)) [
  | inl there ↦ inl (is_file_not_found-file_not_found e there)
  | inr other ↦ inr (ground (arith, h, other), ground (arith, h, other))
]
says_missing_sound Protocol.tftp e h =
    (ground (arith, h), (starts_with_iff (str_of e) "No such file").0 (ground (arith, h)))

says_missing_complete : (p : Protocol) (e : Exc) → Missing p e → says_missing p e ≡ true
unfolding says_missing is_ftp_error is_file_not_found str_of
says_missing_complete Protocol.ftp e (m, same, begins) =
    ap (λ x. says_missing Protocol.ftp x) same ∙ (starts_with_iff m "550 No such file").1 begins
says_missing_complete Protocol.scp e (inl (m, same)) = ap (λ x. says_missing Protocol.scp x) same
says_missing_complete Protocol.scp e (inr (exception, within)) = ground (arith, exception, within)
says_missing_complete Protocol.tftp e (exception, begins) =
    let start = (starts_with_iff (str_of e) "No such file").1 begins in
    ground (arith, exception, start)

translated-Tells :
    {A : Type 0} (p : Protocol) (file_path : String) (m : Exec State A) (s : State)
    → Tells p file_path (m s).0 (catch m (λ e. raise (translate p file_path e)) s).0
translated-Tells {A} p file_path m s = elim (Result-cases (m s).0) [
  | inl (a, good) ↦ rw good (ground (arith, good))
  | inr (e, bad) ↦ (elim (Bool-cases (says_missing p e)) [
    | inl missing ↦ rw bad (inl (says_missing_sound p e missing, ground (arith, bad, missing)))
    | inr otherwise ↦ rw bad (
        inr (
          (λ m. absurd (cc (otherwise, says_missing_complete p e m))),
          ground (arith, bad, otherwise),
        ))
  ])
]

module _ (server : FileServer) (conf : HostWithUserConfig) where
  abbrev pub reading : Protocol → String → Exec State String
  reading p path = session server conf p >> perform server.bytes (FileCall.retrieve path)

  -- With TFTP nothing is asked for.
  abbrev pub deleting : Protocol → String → Exec State (Unit {0})
  deleting Protocol.tftp path = skip
  deleting p path = session server conf p >> perform server.accept (FileCall.delete path)

  delete_once-Tells :
      (p : Protocol) (path : String) (s : State)
      → Tells p path (deleting p path s).0 (delete_once server conf p path s).0
  unfolding delete_once
  delete_once-Tells Protocol.tftp path s = refl
  delete_once-Tells Protocol.ftp path s =
      translated-Tells Protocol.ftp path (deleting Protocol.ftp path) s
  delete_once-Tells Protocol.scp path s =
      translated-Tells Protocol.scp path (deleting Protocol.scp path) s

  -- If a retried method ends as one of its tries, where a try follows another only behind the
  -- handler's `...FileNotFoundError`, then `read_file` and `delete_file` end as the last of their
  -- tries does: they return what is read or done; if the client says that the file is missing, in the
  -- way of its protocol (`Missing`), they raise the handler's own error for the path of the file; and
  -- any other exception they pass on. With TFTP nothing is asked for a file to be deleted.
  pub remote_file-Tells :
      (retry : (A : Type 0) → (Exc → Bool) → Exec State A → Exec State A)
      → EndsAsATry retry
      → (p : Protocol) (file_name : String) (s : State)
      → let path = get_file_path conf.host_conf file_name in
        ((t : State) × Tried (read_once server conf p path) retry_on_file_not_found s t
          × Tells p path (reading p path t).0 (read_file server conf retry p file_name s).0)
        × ((t : State) × Tried (delete_once server conf p path) retry_on_file_not_found s t
            × Tells p path (deleting p path t).0 (delete_file server conf retry p file_name s).0)
  unfolding read_file read_once delete_file
  remote_file-Tells retry law p file_name s =
      let path = get_file_path conf.host_conf file_name in
      let (t, tried, same) = law String retry_on_file_not_found (read_once server conf p path) s in
      let (u, tried', ended) =
        law (Unit {0}) retry_on_file_not_found (delete_once server conf p path) s in
      (
        (t, tried, rw same (translated-Tells p path (reading p path) t)),
        (u, tried', rw ended (delete_once-Tells p path u)),
      )
