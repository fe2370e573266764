-- ===== src/ShellHandler/Preparing.antt =====
-- A Shell that cannot be prepared is not left installed.
use cloudshell_shell_automat.Base.{
  ◌≡◌, Bool-cases, inl, inr, Bool, true, false, Option, ◌∷◌, is_none, arith,
}
use cloudshell_shell_automat.Errors.{Exc, is_exception}
use cloudshell_shell_automat.Exec.{Exec, Result, Result-cases, ok, err, ◌>>◌}
use cloudshell_shell_automat.Api.{Api, Call, Calls}
use cloudshell_shell_automat.CsHandler
use cloudshell_shell_automat.ShellHandler.{
  CloudShellSmb, ShellHandler, forgives_removal, store_extra_files, finish, prepare,
}

module _ (api : Api) (retry : (Exc → Bool) → Exec Calls (Unit {0}) → Exec Calls (Unit {0}))
    (smb : Option CloudShellSmb) (self : ShellHandler) (calls : Calls) where
  abbrev removal : Call
  removal = Call.delete_shell self.cs_shell_name

  -- What `finish` raises for a reply to the removal.
  abbrev pub unforgiven : Result (Unit {0}) → Result (Unit {0})
  unforgiven (ok u) = ok tt
  unforgiven (err e) = elim (forgives_removal e) [ true ↦ ok tt | false ↦ err e ]

  -- Without dependencies `finish` asks the server to delete the Shell, and for nothing else. It
  -- raises what the server replies, but not if the Shell was not found or is in use.
  pub finish-unforgiven :
      is_none self.conf.dependencies_path ≡ true
      → finish api retry smb self calls ≡ (unforgiven (api.accept calls removal), removal ∷ calls)
  unfolding finish CsHandler.remove_shell
  finish-unforgiven h = ground arith

  -- The `try` block of `prepare`.
  abbrev pub attempt : Result (Unit {0}) × Calls
  attempt =
      (store_extra_files api retry smb self >> CsHandler.install_shell api retry self.conf.path)
        calls

  -- If storing the extra files of a Shell without dependencies or installing it raises an
  -- `Exception`, then `prepare` raises, and the last thing that it does is to ask the server to
  -- delete the Shell.
  pub prepare-removal :
      (e : Exc)
      → is_none self.conf.dependencies_path ≡ true
      → attempt.0 ≡ err e
      → is_exception e ≡ true
      → ((x : Exc) × ((prepare api retry smb self calls).0 ≡ err x))
        × ((prepare api retry smb self calls).1 ≡ removal ∷ attempt.1)
  unfolding prepare finish CsHandler.remove_shell
  prepare-removal e h failed ex = elim (Result-cases (api.accept attempt.1 removal)) [
    | inl (u, f) ↦ ((e, ground arith), ground arith)
    | inr (y, f) ↦ elim (Bool-cases (forgives_removal y)) [
      | inl forgiven ↦ ((e, ground arith), ground arith)
      | inr kept ↦ ((y, ground arith), ground arith)
    ]
  ]
