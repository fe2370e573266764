-- ===== src/SmbHandler/Directories.antt =====
-- `create_dir` on a share that keeps directories as a file system does.
use cloudshell_shell_automat.Base.{
  String, ℕ, zero, suc, ◌<◌, ◌≡◌, ◌∙◌, ap, sym, refl, Bool, Bool-cases, true, false, not, ◌&&◌,
  List, [], ◌∷◌, elem, arith, inl, inr, if◌then◌else◌, contains,
}
use mathlib.Core.Path.{subst}
use cloudshell_shell_automat.Errors.{Exc, operation_failure, no_fuel}
use cloudshell_shell_automat.Exec.{Exec, catch, raise, ok, err, ◌>>◌}
use cloudshell_shell_automat.Smb.{SmbCall, SmbCalls, SmbServer}
use cloudshell_shell_automat.SmbHandler.{
  State, retry_on, fails_with, get_dir_path, test_session, open_session, session, in_session,
  create_dir,
}
use cloudshell_shell_automat.SmbHandler.Paths.{
  size, get_dir_path-size, missing-is_blank, with_parents, elem-with_parents,
  elem-with_parents_self,
}

-- A directory can be created if it is not there and the one above it is.
abbrev pub can_create : String → List String → Bool
can_create path dirs = not (elem path dirs) && elem (get_dir_path path) dirs

-- The directories that are there, by those at the start and the calls.
abbrev pub dirs_after : List String → SmbCalls → List String
dirs_after base [] = base
dirs_after base (SmbCall.create_directory path ∷ calls) =
    let dirs = dirs_after base calls in if can_create path dirs then path ∷ dirs else dirs
dirs_after base (c ∷ calls) = dirs_after base calls

-- A directory that is there stays.
elem-dirs_after :
    (base : List String) (calls : SmbCalls) (path : String)
    → elem path base ≡ true
    → elem path (dirs_after base calls) ≡ true
elem-dirs_after base [] path h = h
elem-dirs_after base (SmbCall.create_directory p ∷ calls) path h =
    ground (arith, elem-dirs_after base calls path h)
elem-dirs_after base (SmbCall.connect b ∷ calls) path h = elem-dirs_after base calls path h
elem-dirs_after base (SmbCall.echo ∷ calls) path h = elem-dirs_after base calls path h
elem-dirs_after base (SmbCall.list_path p ∷ calls) path h = elem-dirs_after base calls path h
elem-dirs_after base (SmbCall.delete_files p ∷ calls) path h = elem-dirs_after base calls path h
elem-dirs_after base (SmbCall.retrieve_file p ∷ calls) path h = elem-dirs_after base calls path h
elem-dirs_after base (SmbCall.store_file p q ∷ calls) path h = elem-dirs_after base calls path h
elem-dirs_after base (SmbCall.make_dir p ∷ calls) path h = elem-dirs_after base calls path h
elem-dirs_after base (SmbCall.remove_tree p ∷ calls) path h = elem-dirs_after base calls path h
elem-dirs_after base (SmbCall.read_local p ∷ calls) path h = elem-dirs_after base calls path h
elem-dirs_after base (SmbCall.write_local p q ∷ calls) path h = elem-dirs_after base calls path h

-- What is above a directory that is there is there.
abbrev pub IsClosed : List String → Type 0
IsClosed dirs = (path : String) → elem path dirs ≡ true → elem (get_dir_path path) dirs ≡ true

-- The share accepts connections, and refuses, with the text that `create_dir` looks for, exactly the
-- directories that cannot be created. The root is there.
pub record KeepsDirs (server : SmbServer) (base : List String) (message text : String)
    : Type 0 where
  pub root : elem "" base ≡ true
  pub refusal : contains "Create failed" text ≡ true
  pub echoes : (calls : SmbCalls) → server.accept calls SmbCall.echo ≡ ok tt
  pub connects : (calls : SmbCalls) → server.accept calls (SmbCall.connect false) ≡ ok tt
  pub creates :
      (calls : SmbCalls) (path : String)
      → server.accept calls (SmbCall.create_directory path) ≡ (
          if can_create path (dirs_after base calls)
          then ok tt
          else err (operation_failure message text))

-- A retried method that ends without an exception, or with one that is not to be tried again, was
-- tried once. This is what the documentation of `retrying` says.
abbrev pub TriesOnce : ((A : Type 0) → (Exc → Bool) → Exec State A → Exec State A) → Type 1
TriesOnce retry =
    (A : Type 0) (retries : Exc → Bool) (m : Exec State A) (s : State)
    → (elim (m s).0 [ ok a ↦ false | err e ↦ retries e ]) ≡ false
    → retry A retries m s ≡ m s

module _ (server : SmbServer) (base : List String) (message text : String)
    (law : KeepsDirs server base message text) where
  abbrev dirs : State → List String
  dirs s = dirs_after base s.calls

  abbrev SessionIsOpen : State → Type 0
  SessionIsOpen s = ((session server s).0 ≡ ok tt) × (dirs (session server s).1 ≡ dirs s)

  session_opens : (s : State) → SessionIsOpen s
  unfolding session test_session open_session
  session_opens s = elim (Bool-cases s.self.session) [
    | inl open_already ↦ ground (arith, law.echoes s.calls)
    | inr shut ↦ ground (arith, law.connects s.calls)
  ]

  -- The reply to an attempt to create a directory, and the directories after it.
  abbrev attempt : String → Exec State (Unit {0})
  attempt path = in_session server server.accept (SmbCall.create_directory path)

  -- Behind an open session comes the call.
  attempted :
      (path : String) (s : State)
      → (session server s).0 ≡ ok tt
      → ((attempt path s).0
          ≡ server.accept (session server s).1.calls (SmbCall.create_directory path))
        × (dirs (attempt path s).1 ≡ (
            if can_create path (dirs (session server s).1)
            then path ∷ dirs (session server s).1
            else dirs (session server s).1))
  attempted path s opened = ground arith

  attempt_lem :
      (path : String) (s : State)
      → ((attempt path s).0
          ≡ (if can_create path (dirs s) then ok tt else err (operation_failure message text)))
        × (dirs (attempt path s).1 ≡ (if can_create path (dirs s) then path ∷ dirs s else dirs s))
  attempt_lem path s =
      let (opened, same) = session_opens s in
      let reply = rw same at (law.creates (session server s).1.calls path) in
      let (p, q) = attempted path s opened in (p ∙ reply, q ∙ rw same refl)

  module _ (retry : (A : Type 0) → (Exc → Bool) → Exec State A → Exec State A)
      (once : TriesOnce retry) where
    -- `create_dir` under its decorator.
    abbrev body : ℕ → String → Exec State (Unit {0})
    body n path = catch (attempt path) (λ e.
        if true && fails_with "Create failed" e
        then create_dir server retry n (get_dir_path path) true >> attempt path
        else raise e)

    create_dir-body :
        (n : ℕ) (path : String) (s : State)
        → (body n path s).0 ≡ ok tt
        → create_dir server retry (suc n) path true s ≡ body n path s
    unfolding create_dir
    create_dir-body n path s h = once (Unit {0}) retry_on (body n path) s (ground arith)

    body_there :
        (n : ℕ) (path : String) (s : State)
        → can_create path (dirs s) ≡ true
        → body n path s ≡ attempt path s
    body_there n path s h = ground (arith, attempt_lem path s)

    body_missing :
        (n : ℕ) (path : String) (s : State)
        → can_create path (dirs s) ≡ false
        → body n path s
          ≡ (create_dir server retry n (get_dir_path path) true >> attempt path) (attempt path s).1
    unfolding fails_with
    body_missing n path s h = ground (arith, attempt_lem path s, law.refusal)

    behind_ok : (m k : Exec State (Unit {0})) (s : State) → (m s).0 ≡ ok tt → (m >> k) s ≡ k (m s).1
    behind_ok m k s h = ground arith

    behind_err :
        (m k : Exec State (Unit {0})) (s : State)
        → (m s).0 ≡ err no_fuel
        → ((m >> k) s).0 ≡ err no_fuel
    behind_err m k s h = ground arith

    no_depth :
        (path : String) (s : State) → (create_dir server retry zero path true s).0 ≡ err no_fuel
    unfolding create_dir
    no_depth path s = refl

    -- `create_dir`, by what the calls of its body do.
    Creates : ℕ → String → State → List String → Type 0
    Creates n path s after =
        ((create_dir server retry n path true s).0 ≡ ok tt)
        × (dirs (create_dir server retry n path true s).1 ≡ after)

    created_by_body :
        (n : ℕ) (path : String) (s : State) (after : List String)
        → (body n path s).0 ≡ ok tt
        → dirs (body n path s).1 ≡ after
        → Creates (suc n) path s after
    unfolding Creates
    created_by_body n path s after h d = rw (create_dir-body n path s h) (h, d)

    -- The second attempt, behind the creation of what is above.
    created_above :
        (n : ℕ) (path : String) (s : State) (after : List String)
        → can_create path (dirs s) ≡ false
        → Creates n (get_dir_path path) (attempt path s).1 after
        → can_create path after ≡ true
        → Creates (suc n) path s (path ∷ after)
    unfolding Creates
    created_above n path s after h (done, d) free =
        let s2 = (create_dir server retry n (get_dir_path path) true (attempt path s).1).1 in
        let (reply, next) = rw (d, free) at (attempt_lem path s2) in
        let same : body n path s ≡ attempt path s2 =
          body_missing n path s h
          ∙ behind_ok (create_dir server retry n (get_dir_path path) true) (attempt path)
              (attempt path s).1 done in
        created_by_body n path s (path ∷ after) (ap (λ r. r.0) same ∙ reply)
          (ap (λ r. dirs r.1) same ∙ next)

    -- On a share that keeps directories (`KeepsDirs`), with a decorator that does not try again what
    -- ended without an exception to be tried again (`TriesOnce`): if the path is not there, and the
    -- bound on the depth is greater than its length, then `create_dir` with `parents` returns, and the
    -- directories are those of the specification: the path and what was missing above it are added,
    -- and nothing else.
    pub create_dir-with_parents :
        (n : ℕ) (path : String) (s : State)
        → size path < n
        → elem path (dirs s) ≡ false
        → ((create_dir server retry n path true s).0 ≡ ok tt)
          × (dirs (create_dir server retry n path true s).1 ≡ with_parents n path (dirs s))
    unfolding with_parents Creates
    create_dir-with_parents zero path s lt new = absurd (omega arith)
    create_dir-with_parents (suc n) path s lt new =
        let root = elem-dirs_after base s.calls "" law.root in
        let up = get_dir_path-size path (missing-is_blank path (dirs s) root new) in
        elim (Bool-cases (elem (get_dir_path path) (dirs s))) [
          | inl there ↦
              let free : can_create path (dirs s) ≡ true = rw (new, there) refl in
              let same = body_there n path s free in
              let (reply, next) = rw free at (attempt_lem path s) in
              rw there (
                created_by_body n path s (path ∷ dirs s) (ap (λ r. r.0) same ∙ reply)
                  (ap (λ r. dirs r.1) same ∙ next))
          | inr missing ↦
              let stuck : can_create path (dirs s) ≡ false = rw (new, missing) refl in
              let still : dirs (attempt path s).1 ≡ dirs s =
                (attempt_lem path s).1 ∙ rw stuck refl in
              let above = get_dir_path path in
              let after = with_parents n above (dirs s) in
              let (done, d) =
                create_dir-with_parents n above (attempt path s).1 (omega (arith, up, lt))
                  (rw still missing) in
              let free : can_create path after ≡ true =
                rw
                  (
                    elem-with_parents n above path (dirs s) root missing up,
                    new,
                    elem-with_parents_self n above (dirs s) (omega (arith, up, lt)),
                  )
                  refl in
              rw missing (
                created_above n path s after stuck (done, d ∙ ap (with_parents n above) still) free)
        ]

    -- The same for a body whose exception is not to be tried again.
    fails_with_body :
        (n : ℕ) (path : String) (s : State)
        → (body n path s).0 ≡ err no_fuel
        → (create_dir server retry (suc n) path true s).0 ≡ err no_fuel
    unfolding create_dir retry_on
    fails_with_body n path s h =
        ap (λ r. r.0) (once (Unit {0}) retry_on (body n path) s (ground (arith, h))) ∙ h

    -- On such a share, with such a decorator: if the directory is there, and with each directory that is
    -- there also the one above it, then `create_dir` with `parents` does not return: whatever the
    -- bound on the depth, it is used up.
    pub create_dir-IsClosed :
        (n : ℕ) (path : String) (s : State)
        → IsClosed (dirs s)
        → elem path (dirs s) ≡ true
        → (create_dir server retry n path true s).0 ≡ err no_fuel
    create_dir-IsClosed zero path s closed there = no_depth path s
    create_dir-IsClosed (suc n) path s closed there =
        let stuck : can_create path (dirs s) ≡ false = rw there refl in
        let still : dirs (attempt path s).1 ≡ dirs s = (attempt_lem path s).1 ∙ rw stuck refl in
        let above =
          create_dir-IsClosed n (get_dir_path path) (attempt path s).1
            (subst IsClosed (sym still) closed) (rw still (closed path there)) in
        fails_with_body n path s (
          ap (λ r. r.0) (body_missing n path s stuck)
          ∙ behind_err (create_dir server retry n (get_dir_path path) true) (attempt path)
              (attempt path s).1 above)
