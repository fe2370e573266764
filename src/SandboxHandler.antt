-- ===== src/SandboxHandler.antt =====
-- shell_tests/handlers/sandbox_handler.py: `SandboxHandler`. The two methods that also change a
-- resource handler stand with it, in ResourceHandler.
pub mod Creation
pub mod Deployment
use cloudshell_shell_automat.Base.{
  String, ℕ, zero, suc, code, ◌<>◌, ◌≡◌, Bool, true, false, not, ◌||◌, Option, none, some, List, [],
  ◌∷◌, ◌==◌, starts_with, repr_list, keep, ◌=?◌, is_blank, if◌then◌else◌,
}
use cloudshell_shell_automat.Base.Dict.{Dict}
use cloudshell_shell_automat.Errors.{
  Exc, assertion_error, deployment_resource_not_found, base_automation,
}
use cloudshell_shell_automat.Exec.{Exec, Result, ok, err, pure, raise, catch, ◌>>=◌, ◌>>◌}
use cloudshell_shell_automat.Api.{Api, Call, Calls}
use cloudshell_shell_automat.CsHandler
use cloudshell_shell_automat.Configs.{SandboxConfig}

pub record SandboxHandler : Type 0 where
  pub conf : SandboxConfig
  pub reservation_id : String

-- A text that may be missing: a missing one counts as empty, in a test and as an argument.
abbrev pub text_or_empty : Option String → String
text_or_empty none = ""
text_or_empty (some s) = s

abbrev pub is_given : Option String → Bool
is_given o = not (is_blank (text_or_empty o))

-- `app_name.replace(" ", "-")`
unfoldable pub dashed : String → String
dashed String.[] = String.[]
dashed (String.◌∷◌ c s) = String.◌∷◌ (if code c =? b' ' then "-" else c) (dashed s)

-- The resources whose names begin with the name of the app.
unfoldable pub is_of_app : String → String → Bool
unfolding dashed
is_of_app app name = starts_with name app || starts_with name (dashed app)

abbrev listing : String → String → List String → String
listing app rid names =
    app <> (" in the reservation " <> (rid <> (". Available resources are " <> repr_list names)))

-- The ends of the method, by the names found among all of them.
unfoldable pub pick_found : String → String → List String → List String → Result String
unfolding repr_list
pick_found app rid names [] = err (
    deployment_resource_not_found
      ("Could not find the deployment resource with prefix " <> listing app rid names))
pick_found app rid names (name ∷ []) = ok name
pick_found app rid names (_ ∷ _ ∷ _) = err (
    deployment_resource_not_found
      ("There are more than one suitable resource for the name " <> listing app rid names))

module _ (api : Api) where
  -- The request by which `create` makes the reservation.
  unfoldable pub reserve : SandboxConfig → ℕ → Exec Calls String
  reserve conf duration =
      if is_given conf.blueprint_name
      then CsHandler.create_topology_reservation api conf.name (text_or_empty conf.blueprint_name)
          duration (text_or_empty conf.specific_version)
      else CsHandler.create_reservation api conf.name duration

  unfoldable pub create : SandboxConfig → ℕ → Exec Calls SandboxHandler
  create conf duration = do
    rid ← reserve conf duration
    catch (CsHandler.wait_reservation_is_started api rid)
        (λ e. CsHandler.end_reservation api rid false >> raise e)
    pure (record { conf = conf; reservation_id = rid })

  unfoldable pub end_reservation : SandboxHandler → Bool → Exec Calls (Unit {0})
  end_reservation self wait = CsHandler.end_reservation api self.reservation_id wait

  unfoldable pub delete_reservation : SandboxHandler → Exec Calls (Unit {0})
  delete_reservation self = CsHandler.delete_reservation api self.reservation_id

  unfoldable pub execute_resource_command :
      SandboxHandler → String → String → Dict String → Exec Calls String
  execute_resource_command self name command kwargs =
      CsHandler.execute_command_on_resource api self.reservation_id name command kwargs

  unfoldable pub execute_service_command :
      SandboxHandler → String → String → Dict String → Exec Calls String
  execute_service_command self name command kwargs =
      CsHandler.execute_command_on_service api self.reservation_id name command kwargs

  unfoldable pub add_physical_connection : SandboxHandler → String → String → Exec Calls (Unit {0})
  add_physical_connection self port1 port2 = CsHandler.add_physical_connection api port1 port2

  unfoldable pub connect_ports_with_connector :
      SandboxHandler → String → String → String → Exec Calls (Unit {0})
  connect_ports_with_connector self port1 port2 connector =
      CsHandler.connect_ports_with_connector api self.reservation_id port1 port2 connector

  unfoldable pub remove_connector : SandboxHandler → String → String → Exec Calls (Unit {0})
  remove_connector self port1 port2 = CsHandler.remove_connector api self.reservation_id port1 port2

  -- `assert len(info.Apps) == 1`
  only_app : List String → Exec Calls String
  only_app (app ∷ []) = pure app
  only_app _ = raise (assertion_error "Supported only 1 app in the reservation")

  unfoldable pub get_deployment_resource_name : SandboxHandler → Exec Calls String
  unfolding only_app is_of_app pick_found
  get_deployment_resource_name self = do
    apps ← CsHandler.get_topology_details api (text_or_empty self.conf.blueprint_name)
    app ← only_app apps
    names ← CsHandler.get_resources_names_in_reservation api self.reservation_id
    (λ calls. (pick_found app self.reservation_id names (keep (is_of_app app) names), calls))

  unfoldable pub wait_for_started : SandboxHandler → Exec Calls (Unit {0})
  wait_for_started self = CsHandler.wait_reservation_is_started api self.reservation_id

  unfoldable pub refresh_vm_details : SandboxHandler → List String → Exec Calls (Unit {0})
  refresh_vm_details self apps = CsHandler.refresh_vm_details api self.reservation_id apps

  unfoldable pub finish : SandboxHandler → Bool → Exec Calls (Unit {0})
  unfolding end_reservation
  finish self wait = end_reservation self wait
