-- ===== src/ResourceHandler/State.antt =====
-- `ResourceHandler`: its fields, its creation, its name and its place in a reservation.
pub mod Creating
use cloudshell_shell_automat.Base.{
  String, ℕ, Bool, true, false, not, Option, none, some, List, [], ◌∷◌, contains, is_blank,
  if◌then◌else◌,
}
use cloudshell_shell_automat.Base.Dict.{Dict, lookup, update}
use cloudshell_shell_automat.Errors.{Exc, base_automation}
use cloudshell_shell_automat.Exec.{
  Exec, Result, ok, err, pure, raise, gets, modify, on, when, skip, ◌>>=◌, ◌>>◌,
}
use cloudshell_shell_automat.Api.{Api, Call, Calls, ResourceInfo, head}
use cloudshell_shell_automat.CsHandler
use cloudshell_shell_automat.Configs.{ResourceConfig}
use cloudshell_shell_automat.SandboxHandler
use cloudshell_shell_automat.SandboxHandler.{SandboxHandler, text_or_empty, is_given}

pub data DeviceType : Type 0 where
  real_device simulator without_device shell_from_template : DeviceType

pub record ResourceHandler : Type 0 where
  pub conf : ResourceConfig
  pub name : String
  pub attributes : Dict String
  -- the model of the shell handler
  pub model : String
  pub dependencies_are_broken : Bool
  pub sandbox : Option SandboxHandler
  -- `_autoload_started.is_set()` and `autoload_finished.is_set()`
  pub autoload_started : Bool
  pub autoload_finished : Bool
  pub is_autoload_success : Option Bool

-- A resource handler, and the calls made so far.
pub record State : Type 0 where
  pub self : ResourceHandler
  pub calls : Calls

-- A method of `CloudShellHandler`.
abbrev pub cs : {A : Type 0} → Exec Calls A → Exec State A
cs = on (λ s. s.calls) (λ calls s. record s { calls = calls })

abbrev pub set_self : (ResourceHandler → ResourceHandler) → Exec State (Unit {0})
set_self f = modify (λ s. record s { self = f s.self })

-- `__init__`
unfoldable pub init : ResourceConfig → String → ResourceHandler
init conf model = record {
  conf = conf;
  name = conf.name;
  attributes = [];
  model = model;
  dependencies_are_broken = false;
  sandbox = none;
  autoload_started = false;
  autoload_finished = false;
  is_autoload_success = none;
}

-- `sandbox_handler`
unfoldable pub sandbox_handler : ResourceHandler → Result SandboxHandler
sandbox_handler r = elim r.sandbox [
  | none ↦ err (base_automation "You have to add Sandbox Handler")
  | some s ↦ ok s
]

unfoldable pub device_type : ResourceHandler → DeviceType
device_type r =
    if contains "SHELL_FROM_TEMPLATE" r.conf.name
    then shell_from_template
    else if not (is_given r.conf.device_ip)
    then without_device
    else if is_given (lookup "User" r.conf.attributes)
    then real_device
    else simulator

-- `self.model if not self.conf.is_first_gen else ""`
abbrev pub namespace_of : ResourceHandler → String
namespace_of r = if not r.conf.is_first_gen then r.model else ""

abbrev is_nonempty : Dict String → Bool
is_nonempty [] = false
is_nonempty (a ∷ d) = true

module _ (api : Api) where
  unfoldable pub get_details : Exec State ResourceInfo
  get_details s = cs (CsHandler.get_resource_details api s.self.name) s

  unfoldable pub get_commands : Exec State (List String)
  get_commands s = cs (CsHandler.get_resource_commands api s.self.name) s

  unfoldable pub set_attributes : Dict String → Exec State (Unit {0})
  set_attributes attributes s =
      (cs (CsHandler.set_resource_attributes api s.self.name (namespace_of s.self) attributes)
          >> set_self (λ r. record r { attributes = update r.attributes attributes }))
        s

  -- `self.conf.device_ip or "127.0.0.1"`
  abbrev ip_of : ResourceHandler → String
  ip_of r = if is_given r.conf.device_ip then text_or_empty r.conf.device_ip else "127.0.0.1"

  -- `create_resource` without `create_new_resources_if_exists` makes one round.
  unfoldable pub create_resource : Exec State (Unit {0})
  unfolding set_attributes
  create_resource s =
      (do
        name ←
            cs (CsHandler.create_resource api 1 s.self.name s.self.model (ip_of s.self) "" "" false)
        set_self (λ r. record r { name = name })
        when (is_nonempty s.self.conf.attributes) (set_attributes s.self.conf.attributes))
        s

  -- `ResourceHandler.create`
  unfoldable pub create : ResourceConfig → String → Exec Calls ResourceHandler
  unfolding create_resource init
  create conf model calls =
      let (r, s) = create_resource (record { self = init conf model; calls = calls }) in
      elim r [ ok u ↦ (ok s.self, s.calls) | err e ↦ (err e, s.calls) ]

  -- The argument bounds the attempts of the server handler's loop.
  unfoldable pub rename : ℕ → String → Exec State (Unit {0})
  rename fuel new_name s =
      (do
        name ← cs (CsHandler.rename_resource api fuel s.self.name new_name)
        set_self (λ r. record r { name = name }))
        s

  unfoldable pub finish : Exec State (Unit {0})
  finish s = cs (CsHandler.delete_resource api s.self.name) s

  -- `SandboxHandler.add_resource_to_reservation`
  unfoldable pub add_to_reservation : SandboxHandler → Exec State (Unit {0})
  add_to_reservation sandbox s =
      (cs (CsHandler.add_resource_to_reservation api sandbox.reservation_id s.self.name)
          >> set_self (λ r. record r { sandbox = some sandbox }))
        s

  -- `SandboxHandler.remove_resource_from_reservation`
  unfoldable pub remove_from_reservation : SandboxHandler → Exec State (Unit {0})
  remove_from_reservation sandbox s =
      (cs (CsHandler.remove_resource_from_reservation api sandbox.reservation_id s.self.name)
          >> set_self (λ r. record r { sandbox = none }))
        s
