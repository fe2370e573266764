-- ===== src/VcenterHandler.antt =====
-- shell_tests/handlers/vcenter_handler.py. The client, pyVim, is a parameter that answers by the
-- history of calls. A connection is a number that it gives.
pub mod Closing
use cloudshell_shell_automat.Base.{
  String, ℕ, Bool, true, false, Option, none, some, List, [], ◌∷◌, if◌then◌else◌,
}
use cloudshell_shell_automat.Errors.{Exc, other}
use cloudshell_shell_automat.Exec.{
  Exec, Result, ok, err, pure, raise, catch, modify, skip, ◌>>=◌, ◌>>◌,
}
use cloudshell_shell_automat.Configs.{VcenterConfig}

pub data VcenterCall : Type 0 where
  -- `SmartConnect` with host, user and password, and with an `ssl_context` that verifies nothing, or none
  smart_connect : String → String → String → Bool → VcenterCall
  disconnect : ℕ → VcenterCall
  -- `searchIndex.FindByUuid(None, uuid, True)` by a connection
  find_by_uuid : ℕ → String → VcenterCall

-- The calls made so far, the latest first.
abbrev pub VcenterCalls : Type 0
VcenterCalls = List VcenterCall

pub record Vcenter : Type 0 where
  pub connection : VcenterCalls → VcenterCall → Result ℕ
  pub accept : VcenterCalls → VcenterCall → Result (Unit {0})
  -- the machine that is found, by its name, or `None`
  pub machine : VcenterCalls → VcenterCall → Result (Option String)
  -- `isinstance(e, ssl.SSLError)`
  pub is_ssl_error : Exc → Bool

pub record VcenterHandler : Type 0 where
  pub conf : VcenterConfig
  -- the cached `_si`
  pub si : Option ℕ

pub record State : Type 0 where
  pub self : VcenterHandler
  pub calls : VcenterCalls

-- `__init__`
unfoldable pub init : VcenterConfig → VcenterHandler
init conf = record { conf = conf; si = none }

abbrev perform : {A : Type 0} → (VcenterCalls → VcenterCall → Result A) → VcenterCall → Exec State A
perform reply c s = (reply s.calls c, record s { calls = c ∷ s.calls })

abbrev set_si : Option ℕ → Exec State (Unit {0})
set_si o = modify (λ s. record s { self = record (s.self) { si = o } })

module _ (vcenter : Vcenter) where
  -- The attempt with the certificates, and without after an error of them.
  unfoldable pub connect : Exec State ℕ
  connect s =
      let c = s.self.conf in
      catch (perform vcenter.connection (VcenterCall.smart_connect c.host c.user c.password false))
        (λ e.
          if vcenter.is_ssl_error e
          then perform vcenter.connection (VcenterCall.smart_connect c.host c.user c.password true)
          else raise e)
        s

  -- `_si`, a cached property
  unfoldable pub get_si : Exec State ℕ
  unfolding connect
  get_si s = elim s.self.si [
    | some n ↦ (ok n, s)
    | none ↦ (connect >>= λ n. set_si (some n) >> pure n) s
  ]

  -- `_logout`, which connects first if it has to
  unfoldable pub logout : Exec State (Unit {0})
  unfolding get_si
  logout = get_si >>= λ n. perform vcenter.accept (VcenterCall.disconnect n) >> set_si none

  unfoldable pub get_vm_by_uuid : String → Exec State (Option String)
  unfolding get_si
  get_vm_by_uuid vm_uuid =
      get_si >>= λ n. perform vcenter.machine (VcenterCall.find_by_uuid n vm_uuid)

  unfoldable pub prepare : Exec State (Unit {0})
  prepare = skip

  unfoldable pub finish : Exec State (Unit {0})
  unfolding logout
  finish = logout
