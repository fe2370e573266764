-- ===== src/RunTests/Alive.antt =====
-- shell_tests/helpers/check_resource_is_alive.py. A ping is a call; that it fails is an exception of
-- the class that stands here for `CalledProcessError`.
use cloudshell_shell_automat.Base.{
  String, ◌<>◌, ◌≡◌, ◌∙◌, ap, sym, inl, inr, refl, Bool, true, false, Option, none, some, List, [],
  ◌∷◌, arith, if◌then◌else◌,
}
use cloudshell_shell_automat.Base.Dict.{Dict, insert}
use cloudshell_shell_automat.Errors.{Exc, resource_is_not_alive, other}
use cloudshell_shell_automat.Exec.{
  Exec, Result, Result-cases, ok, err, pure, raise, catch, skip, for_each, ◌>>=◌, ◌>>◌,
}
use cloudshell_shell_automat.Api.{Api, Call, Calls, perform}
use cloudshell_shell_automat.Configs.{
  MainConfig, ResourceConfig, HostConfig, HostWithUserConfig, CloudShellConfig, DoConfig,
}
use cloudshell_shell_automat.Configs.Hosts.{netloc}
use cloudshell_shell_automat.SandboxHandler.{text_or_empty, is_given}

abbrev is_called_process_error : Exc → Bool
is_called_process_error (other m) = true
is_called_process_error _ = false

-- The resources with an address, by their names.
unfoldable pub device_hosts : List ResourceConfig → Dict String → Dict String
unfolding insert
device_hosts [] hosts = hosts
device_hosts (r ∷ rs) hosts =
    device_hosts rs
      (if is_given r.device_ip then insert r.name (text_or_empty r.device_ip) hosts else hosts)

abbrev with_user : String → Option HostWithUserConfig → Dict String → Dict String
with_user name none hosts = hosts
with_user name (some conf) hosts = insert name (netloc conf.host_conf) hosts

abbrev with_host : String → Option HostConfig → Dict String → Dict String
with_host name none hosts = hosts
with_host name (some conf) hosts = insert name (netloc conf) hosts

-- Without Do, `conf.cs_conf.host`, which is an `AttributeError` on `None`.
abbrev with_cloudshell :
    Option DoConfig → Option CloudShellConfig → Dict String → Result (Dict String)
with_cloudshell (some do_conf) cs_conf hosts = ok (insert "Do" do_conf.base.host hosts)
with_cloudshell none (some cs_conf) hosts = ok (insert "CloudShell" cs_conf.host hosts)
with_cloudshell none none hosts = err (other "AttributeError")

-- `resources_to_check`
unfoldable pub hosts_to_check : MainConfig → Result (Dict String)
unfolding device_hosts insert netloc
hosts_to_check conf = with_cloudshell conf.do_conf conf.cs_conf (
    with_host "TFTP" conf.tftp_conf (
      with_user "SCP" conf.scp_conf
        (with_user "FTP" conf.ftp_conf (device_hosts conf.resources_conf []))))

module _ (api : Api) where
  -- `_is_host_alive`
  unfoldable pub is_host_alive : String → Exec Calls Bool
  is_host_alive host =
      catch (perform api.accept (Call.ping host) >> pure true)
        (λ e. if is_called_process_error e then pure false else raise e)

  abbrev check_host : String × String → Exec Calls (Unit {0})
  check_host (name, host) = is_host_alive host >>= λ alive.
      if alive
      then skip
      else raise (resource_is_not_alive (name <> (" (" <> (host <> ") is not alive, check it"))))

  unfoldable pub check_all_resources_is_alive : MainConfig → Exec Calls (Unit {0})
  unfolding for_each is_host_alive hosts_to_check
  check_all_resources_is_alive conf =
      (λ calls. (hosts_to_check conf, calls)) >>= λ hosts. for_each hosts check_host

  -- The calls that ask for the hosts, onto those before.
  abbrev pings : Dict String → Calls → Calls
  pings [] calls = calls
  pings ((name, host) ∷ hosts) calls = pings hosts (Call.ping host ∷ calls)

  asked_once :
      (name host : String) (calls : Calls)
      → (check_host (name, host) calls).1 ≡ Call.ping host ∷ calls
  unfolding is_host_alive
  asked_once name host calls = ground arith

  passed :
      (h : String × String) (hosts : Dict String) (calls : Calls)
      → (check_host h calls).0 ≡ ok tt
      → for_each (h ∷ hosts) check_host calls ≡ for_each hosts check_host (check_host h calls).1
  unfolding for_each
  passed h hosts calls good = ground (arith, good)

  stopped :
      (h : String × String) (hosts : Dict String) (calls : Calls) (e : Exc)
      → (check_host h calls).0 ≡ err e
      → (for_each (h ∷ hosts) check_host calls).0 ≡ err e
  unfolding for_each
  stopped h hosts calls e bad = ground (arith, bad)

  check_each :
      (hosts : Dict String) (calls : Calls)
      → (for_each hosts check_host calls).0 ≡ ok tt
      → (for_each hosts check_host calls).1 ≡ pings hosts calls
  unfolding for_each is_host_alive
  check_each [] calls h = refl
  check_each ((name, host) ∷ hosts) calls h =
      elim (Result-cases (check_host (name, host) calls).0) [
        | inr (e, bad) ↦ absurd (cc (h, stopped (name, host) hosts calls e bad))
        | inl (u, good) ↦
            let next = passed (name, host) hosts calls good in
            let here = asked_once name host calls in
            let later =
              check_each hosts (check_host (name, host) calls).1 (ap (λ r. r.0) (sym next) ∙ h) in
            ap (λ r. r.1) next ∙ later ∙ ap (pings hosts) here
      ]

  -- If the check passes, then there are addresses to check, and each was asked for once, in their order.
  pub check_all_resources_is_alive_asks :
      (conf : MainConfig) (hosts : Dict String) (calls : Calls)
      → hosts_to_check conf ≡ ok hosts
      → (check_all_resources_is_alive conf calls).0 ≡ ok tt
      → (check_all_resources_is_alive conf calls).1 ≡ pings hosts calls
  unfolding check_all_resources_is_alive
  check_all_resources_is_alive_asks conf hosts calls e h =
      ground (arith, e, h, check_each hosts calls)
