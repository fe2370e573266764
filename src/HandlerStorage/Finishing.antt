-- ===== src/HandlerStorage/Finishing.antt =====
-- `finish` asks for the end of everything that was created.
use cloudshell_shell_automat.Base.{
  String, ℕ, zero, suc, ◌≡◌, refl, inl, inr, Bool, true, false, Option, none, some, ◌∷◌, ◌==◌,
  is_none, not, arith, Bool-cases, if◌then◌else◌,
}
use mathlib.Core.Path.{subst}
use cloudshell_shell_automat.Errors.{Exc}
use cloudshell_shell_automat.Exec.{Exec, Result-cases, ok, skip, raise, catch, when, ◌>>◌}
use cloudshell_shell_automat.Api.{Api, Call, Calls, perform}
use cloudshell_shell_automat.CsHandler
use cloudshell_shell_automat.ShellHandler
use cloudshell_shell_automat.ShellHandler.{ShellHandler, CloudShellSmb, forgives_removal}
use cloudshell_shell_automat.SandboxHandler
use cloudshell_shell_automat.SandboxHandler.{SandboxHandler}
use cloudshell_shell_automat.ResourceHandler.State as Resource
use cloudshell_shell_automat.ResourceHandler.State.{ResourceHandler}
use cloudshell_shell_automat.HandlerStorage.History.{
  Made, Grows, >>-Grows, >>-Made, >>-returns, Asked, Asked-Grows, finish_each-Grows,
  finish_each-Asked,
}
use cloudshell_shell_automat.HandlerStorage.{HandlerStorage, finish_each, finish_resource, finish}

-- `end_reservation` asks for the end of the reservation, and takes nothing back.
module _ (api : Api) (rid : String) where
  end_rounds-Grows : (n : ℕ) → Grows (CsHandler.end_rounds api n rid)
  unfolding CsHandler.end_rounds CsHandler.get_reservation_status
  end_rounds-Grows zero calls c made = made
  end_rounds-Grows (suc n) calls c made =
      elim (Result-cases (api.status calls (Call.get_reservation_status rid))) [
        | inr (e, p) ↦ rw (p, Made) (inr made)
        | inl (s, p) ↦ elim (Bool-cases (s.status == "Completed")) [
          | inl done ↦ rw (p, done, Made) (inr made)
          | inr running ↦
              rw (p, running)
                (end_rounds-Grows n (Call.sleep 30 ∷ Call.get_reservation_status rid ∷ calls) c
                  (inr (inr made)))
        ]
      ]

  when_waiting-Grows : (b : Bool) → Grows (when b (CsHandler.end_rounds api 30 rid))
  when_waiting-Grows true calls c made = end_rounds-Grows 30 calls c made
  when_waiting-Grows false calls c made = made

  pub end_reservation-Grows : (wait : Bool) → Grows (CsHandler.end_reservation api rid wait)
  unfolding CsHandler.end_reservation
  end_reservation-Grows wait =
      >>-Grows (perform api.accept (Call.end_reservation rid))
        (when wait (CsHandler.end_rounds api 30 rid)) (λ calls c made. inr made)
        (when_waiting-Grows wait)

  pub end_reservation-Made :
      (wait : Bool) (calls : Calls)
      → Made (Call.end_reservation rid) (CsHandler.end_reservation api rid wait calls).1
  unfolding CsHandler.end_reservation
  end_reservation-Made wait calls =
      >>-Made (perform api.accept (Call.end_reservation rid))
        (when wait (CsHandler.end_rounds api 30 rid)) calls (Call.end_reservation rid) (inl refl)
        (when_waiting-Grows wait)

abbrev pub ending : SandboxHandler → Call
ending h = Call.end_reservation h.reservation_id

abbrev pub deleting : ResourceHandler → Call
deleting h = Call.delete_resource h.name

abbrev pub removing : ShellHandler → Call
removing h = Call.delete_shell h.cs_shell_name

-- Clearing the offline PyPI only makes further calls.
abbrev pub ClearGrows : Option CloudShellSmb → Type 0
ClearGrows none = Unit
ClearGrows (some h) = Grows h.clear_offline_pypi

module _ (api : Api) where
  end_sandbox-Grows : (h : SandboxHandler) → Grows (SandboxHandler.finish api h true)
  unfolding SandboxHandler.finish
  end_sandbox-Grows h calls c made = end_reservation-Grows api h.reservation_id true calls c made

  end_sandbox-Made :
      (h : SandboxHandler) (calls : Calls)
      → Made (Call.end_reservation h.reservation_id) (SandboxHandler.finish api h true calls).1
  unfolding SandboxHandler.finish
  end_sandbox-Made h calls = end_reservation-Made api h.reservation_id true calls

  finish_resource-Grows : (h : ResourceHandler) → Grows (finish_resource api h)
  unfolding finish_resource Resource.finish CsHandler.delete_resource
  finish_resource-Grows h calls c made = inr made

  finish_resource-Made :
      (h : ResourceHandler) (calls : Calls)
      → Made (Call.delete_resource h.name) (finish_resource api h calls).1
  unfolding finish_resource Resource.finish CsHandler.delete_resource
  finish_resource-Made h calls = inl refl

  module _ (retry : (Exc → Bool) → Exec Calls (Unit {0}) → Exec Calls (Unit {0}))
      (smb : Option CloudShellSmb) where
    abbrev clearing : Option CloudShellSmb → Bool → Exec Calls (Unit {0})
    clearing s b = when b (elim s [ none ↦ skip | some h ↦ h.clear_offline_pypi ])

    clears-Grows : (b : Bool) (s : Option CloudShellSmb) → ClearGrows s → Grows (clearing s b)
    clears-Grows false s law calls c made = made
    clears-Grows true none law calls c made = made
    clears-Grows true (some h) law calls c made = law calls c made

    -- The `try` statement of a Shell's `finish`.
    abbrev try_removal : ShellHandler → Exec Calls (Unit {0})
    try_removal h =
        catch (CsHandler.remove_shell api h.cs_shell_name)
          (λ e. if forgives_removal e then skip else raise e)

    try_removal-calls :
        (h : ShellHandler) (calls : Calls)
        → Call.delete_shell h.cs_shell_name ∷ calls ≡ (try_removal h calls).1
    unfolding CsHandler.remove_shell
    try_removal-calls h calls = ground arith

    finish_shell-Grows :
        ClearGrows smb → (h : ShellHandler) → Grows (ShellHandler.finish api retry smb h)
    unfolding ShellHandler.finish
    finish_shell-Grows law h =
        >>-Grows (try_removal h) (clearing smb (not (is_none h.conf.dependencies_path)))
          (λ calls c made. subst (Made c) (try_removal-calls h calls) (inr made))
          (clears-Grows (not (is_none h.conf.dependencies_path)) smb law)

    finish_shell-Made :
        ClearGrows smb
        → (h : ShellHandler) (calls : Calls)
        → Made (Call.delete_shell h.cs_shell_name) (ShellHandler.finish api retry smb h calls).1
    unfolding ShellHandler.finish
    finish_shell-Made law h calls =
        >>-Made (try_removal h) (clearing smb (not (is_none h.conf.dependencies_path))) calls
          (Call.delete_shell h.cs_shell_name)
          (subst (Made (Call.delete_shell h.cs_shell_name)) (try_removal-calls h calls) (inl refl))
          (clears-Grows (not (is_none h.conf.dependencies_path)) smb law)

    -- If `finish` returns, then the server was asked to end each reservation, to delete each
    -- resource and to delete each Shell that the storage has created, provided that clearing the
    -- offline PyPI only makes further calls.
    pub finish-Asked :
        (self : HandlerStorage) (calls : Calls)
        → ClearGrows smb
        → (finish api retry smb self calls).0 ≡ ok tt
        → let (r, after) = finish api retry smb self calls in
          Asked ending self.sandboxes after
          × Asked deleting self.resources after
          × Asked removing self.shells after
    unfolding finish
    finish-Asked self calls law h =
        let end : SandboxHandler → Exec Calls (Unit {0}) = λ h. SandboxHandler.finish api h true in
        let a : Exec Calls (Unit {0}) = finish_each end self.sandboxes in
        let b : Exec Calls (Unit {0}) = finish_each (finish_resource api) self.resources in
        let c : Exec Calls (Unit {0}) =
          finish_each (ShellHandler.finish api retry smb) self.shells in
        let (first, last, after) = >>-returns (a >> b) c calls h in
        let (ended, deleted, middle) = >>-returns a b calls first in
        let grow_b : Grows b =
          finish_each-Grows deleting (finish_resource api) finish_resource-Grows
            finish_resource-Made self.resources in
        let grow_c : Grows c =
          finish_each-Grows removing (ShellHandler.finish api retry smb) (finish_shell-Grows law)
            (finish_shell-Made law) self.shells in
        let sandboxes : Asked ending self.sandboxes (a calls).1 =
          finish_each-Asked ending end end_sandbox-Grows end_sandbox-Made self.sandboxes calls
            ended in
        let resources : Asked deleting self.resources (b (a calls).1).1 =
          finish_each-Asked deleting (finish_resource api) finish_resource-Grows
            finish_resource-Made self.resources (a calls).1 deleted in
        let shells : Asked removing self.shells (c ((a >> b) calls).1).1 =
          finish_each-Asked removing (ShellHandler.finish api retry smb) (finish_shell-Grows law)
            (finish_shell-Made law) self.shells ((a >> b) calls).1 last in
        let later : Asked ending self.sandboxes ((a >> b) calls).1 =
          subst (Asked ending self.sandboxes) middle
            (Asked-Grows ending b self.sandboxes (a calls).1 grow_b sandboxes) in
        (
          subst (Asked ending self.sandboxes) after
              (Asked-Grows ending c self.sandboxes ((a >> b) calls).1 grow_c later),
          subst (Asked deleting self.resources) after (
              Asked-Grows deleting c self.resources ((a >> b) calls).1 grow_c
                (subst (Asked deleting self.resources) middle resources)),
          subst (Asked removing self.shells) after shells,
        )
