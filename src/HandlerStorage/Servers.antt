-- ===== src/HandlerStorage/Servers.antt =====
-- The handlers of servers of shell_tests/helpers/handler_storage.py, which the properties of
-- `HandlerStorage` make when they are first asked for. The one of the share stands in RunTests.Runner.
use cloudshell_shell_automat.Base.{
  ◌≡◌, inl, inr, Bool, false, Option, Option-cases, none, some, arith,
}
use cloudshell_shell_automat.Errors.{Exc}
use cloudshell_shell_automat.Exec.{Exec, Result, Result-cases, ok, on, ◌>>◌}
use cloudshell_shell_automat.Api.{Api, Calls}
use cloudshell_shell_automat.ShellHandler.{CloudShellSmb}
use cloudshell_shell_automat.HandlerStorage.{HandlerStorage, finish}
use cloudshell_shell_automat.Configs.{MainConfig, HostConfig, HostWithUserConfig}
use cloudshell_shell_automat.VcenterHandler as Vcenter
use cloudshell_shell_automat.VcenterHandler.{Vcenter, VcenterHandler, VcenterCalls}

-- `FTPHandler`, `SCPHandler` and `TFTPHandler` as they are made: the configuration, and no session.
pub record FileHandler (C : Type 0) : Type 0 where
  pub conf : C
  pub session : Bool

unfoldable pub new_file_handler : {C : Type 0} → C → FileHandler C
new_file_handler conf = record { conf = conf; session = false }

-- `_ftp_handler`, `_scp_handler`, `_tftp_handler` and `_vcenter_handler`
pub record Servers : Type 0 where
  pub ftp : Option (FileHandler HostWithUserConfig)
  pub scp : Option (FileHandler HostWithUserConfig)
  pub tftp : Option (FileHandler HostConfig)
  pub vcenter : Option VcenterHandler

-- `if self._x is None and conf: self._x = X(conf)`
abbrev pub made : {C H : Type 0} → (C → H) → Option H → Option C → Option H
made make (some h) conf = some h
made make none (some conf) = some (make conf)
made make none none = none

unfoldable pub ftp_handler :
    MainConfig → Servers → Option (FileHandler HostWithUserConfig) × Servers
unfolding new_file_handler
ftp_handler conf s = let h = made new_file_handler s.ftp conf.ftp_conf in (h, record s { ftp = h })

unfoldable pub scp_handler :
    MainConfig → Servers → Option (FileHandler HostWithUserConfig) × Servers
unfolding new_file_handler
scp_handler conf s = let h = made new_file_handler s.scp conf.scp_conf in (h, record s { scp = h })

unfoldable pub tftp_handler : MainConfig → Servers → Option (FileHandler HostConfig) × Servers
unfolding new_file_handler
tftp_handler conf s =
    let h = made new_file_handler s.tftp conf.tftp_conf in (h, record s { tftp = h })

unfoldable pub vcenter_handler : MainConfig → Servers → Option VcenterHandler × Servers
unfolding Vcenter.init
vcenter_handler conf s =
    let h = made Vcenter.init s.vcenter conf.vcenter_conf in (h, record s { vcenter = h })

-- The end of `HandlerStorage.finish`: the handler of vCenter, if it was made.
unfoldable pub finish_vcenter : Vcenter → Servers → VcenterCalls → Result (Unit {0}) × VcenterCalls
unfolding Vcenter.finish
finish_vcenter server s calls = elim s.vcenter [
  | none ↦ (ok tt, calls)
  | some h ↦ let (r, t) = Vcenter.finish server (record { self = h; calls = calls }) in (r, t.calls)
]

-- A handler is there exactly if its server is configured, it has the configuration, and it is made once:
-- the next reading gives it back and changes nothing.
pub vcenter_handler_once :
    (conf : MainConfig) (s : Servers)
    → s.vcenter ≡ none
    → let (h, s') = vcenter_handler conf s in
      (h ≡ made Vcenter.init none conf.vcenter_conf) × (vcenter_handler conf s' ≡ (h, s'))
unfolding vcenter_handler
vcenter_handler_once conf s new = elim (Option-cases conf.vcenter_conf) [
  | inl missing ↦ ground (arith, new, missing)
  | inr (c, there) ↦ ground (arith, new, there)
]

-- What the whole of `HandlerStorage.finish` talks to.
pub record Finishing : Type 0 where
  pub calls : Calls
  pub vcenter_calls : VcenterCalls

module _ (api : Api) (retry : (Exc → Bool) → Exec Calls (Unit {0}) → Exec Calls (Unit {0}))
    (smb : Option CloudShellSmb) (server : Vcenter) (self : HandlerStorage) where
  -- `HandlerStorage.finish` with its last step
  unfoldable pub finish_all : Servers → Exec Finishing (Unit {0})
  unfolding finish finish_vcenter
  finish_all servers =
      on (λ f. f.calls) (λ calls f. record f { calls = calls }) (finish api retry smb self)
      >> on (λ f. f.vcenter_calls) (λ calls f. record f { vcenter_calls = calls })
          (finish_vcenter server servers)

  -- If no handler of vCenter was made, the whole of `finish` is the part without it.
  pub finish_all_without :
      (servers : Servers) (s : Finishing)
      → servers.vcenter ≡ none
      → let (r, calls) = finish api retry smb self s.calls in
        finish_all servers s ≡ (r, record s { calls = calls })
  unfolding finish_all finish_vcenter
  finish_all_without servers s no_vcenter =
      elim (Result-cases (finish api retry smb self s.calls).0) [
        | inl (u, e) ↦ ground (arith, no_vcenter, e)
        | inr (x, e) ↦ ground (arith, no_vcenter, e)
      ]
