-- ===== src/ResourceHandler/Autoload.antt =====
-- `ResourceHandler.autoload`, `autoload_if_needed` and `_add_additional_ports`.
pub mod Flags
pub mod Retry
use cloudshell_shell_automat.Base.{
  String, ℕ, zero, suc, ◌+◌, ◌<>◌, ◌≡◌, Bool, true, false, not, ◌&&◌, ◌||◌, Option, none, some,
  List, [], ◌∷◌, ◌==◌, is_empty, decimal, if◌then◌else◌,
}
use cloudshell_shell_automat.Base.Dict.{Dict}
use cloudshell_shell_automat.Errors.{Exc, api_error, dependencies_broken, is_exception}
use cloudshell_shell_automat.Exec.{
  Exec, Result, ok, err, pure, raise, catch, when, skip, for_each, ◌>>=◌, ◌>>◌,
}
use cloudshell_shell_automat.Api.{
  Api, Call, Calls, ResourceInfo, ResourceHead, Children, no_child, child, head, children,
}
use cloudshell_shell_automat.CsHandler
use cloudshell_shell_automat.Configs.{AdditionalPort}
use cloudshell_shell_automat.ResourceHandler.State.{
  ResourceHandler, State, cs, set_self, get_details,
}
use cloudshell_shell_automat.ResourceHandler.Attributes.{set_children_attributes}

-- What `_autoload` does with an exception of its first try.
pub data Reaction : Type 0 where
  give_up update_driver note_broken : Reaction

-- The guards of its two `except` clauses.
unfoldable pub reaction : Exc → Reaction
reaction (api_error code message t) =
    if not (code == "129") && not (message == "no driver associated")
    then give_up
    else update_driver
reaction dependencies_broken = note_broken
reaction _ = give_up

abbrev pub break_dependencies : ResourceHandler → ResourceHandler
break_dependencies r = record r { dependencies_are_broken = true }

-- The name of the first chassis among the children.
unfoldable pub find_chassis : Children → Option String
find_chassis no_child = none
find_chassis (child c cs) =
    let rest = find_chassis cs in
    if (head c).family == "CS_Chassis" then some (head c).name else rest

module _ (api : Api) where
  unfoldable pub autoload_once : Exec State (Unit {0})
  unfolding reaction
  autoload_once s =
      catch (cs (CsHandler.resource_autoload api s.self.name))
        (λ e. elim (reaction e) [
          | give_up ↦ raise e
          | update_driver ↦
              cs (CsHandler.update_driver_for_the_resource api s.self.name s.self.model)
              >> cs (CsHandler.resource_autoload api s.self.name)
          | note_broken ↦ set_self break_dependencies >> raise e
        ])
        s

  -- The chassis that is there, or a new one. `create_resource` makes one round here.
  chassis : ResourceInfo → Exec Calls String
  unfolding find_chassis
  chassis info = elim (find_chassis (children info)) [
    | some name ↦ pure name
    | none ↦ (do
      name ←
          CsHandler.create_resource api 1 "Chassis 1" ((head info).model <> ".GenericChassis") "CH1"
            "CS_Chassis" (head info).name false
      pure ((head info).name <> ("/" <> name)))
  ]

  -- `for i, port_conf in enumerate(additional_port_configs, 1)`
  add_ports : ResourceInfo → String → ℕ → List AdditionalPort → Exec Calls (Unit {0})
  add_ports info chassis_name i [] = skip
  add_ports info chassis_name i (port ∷ ports) = do
    CsHandler.create_resource api 1 port.name ((head info).model <> ".GenericPort")
        ("P" <> decimal i) "CS_Port" chassis_name false
    add_ports info chassis_name (i + 1) ports

  unfoldable pub add_additional_ports : List AdditionalPort → Exec State (Unit {0})
  unfolding chassis add_ports
  add_additional_ports ports = do
    info ← get_details api
    name ← cs (chassis info)
    cs (add_ports info name 1 ports)

  -- The body of the `try` block.
  unfoldable pub autoload_body : Exec State (Unit {0})
  autoload_body s =
      (autoload_once
          >> when (not (is_empty s.self.conf.additional_ports))
              (add_additional_ports s.self.conf.additional_ports)
          >> when (not (is_empty s.self.conf.children_attributes))
              (set_children_attributes api s.self.conf.children_attributes))
        s

  abbrev finished : Bool → ResourceHandler → ResourceHandler
  finished success r = record r { is_autoload_success = some success; autoload_finished = true }

  abbrev mark_started : Bool → ResourceHandler → ResourceHandler
  mark_started b r = record r { autoload_started = b }

  unfoldable pub autoload : Exec State (Unit {0})
  autoload =
      set_self (mark_started true)
      >> catch autoload_body (λ e. when (is_exception e) (set_self (finished false)) >> raise e)
      >> set_self (finished true)
      >> set_self (mark_started false)

-- What `autoload_if_needed` comes to.
pub data Turn : Type 0 where
  -- it returned, after an Autoload of its own or none
  returned : Turn
  -- it waits until another thread sets `autoload_finished`
  waits : Turn

module _ (api : Api) where
  unfoldable pub autoload_if_needed : Exec State Turn
  autoload_if_needed s =
      if s.self.autoload_finished
      then (ok returned, s)
      else if s.self.autoload_started
      then (ok waits, s)
      else (autoload api >> pure returned) s
