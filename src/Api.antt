-- ===== src/Api.antt =====
-- What the program asks of the outside: the Automation API session and the REST client of the
-- third-party packages `cloudshell-automation-api` and `cloudshell-rest-api`, `ping`, and sleeping.
-- A reply may depend on all calls made before, so an `Api` stands for any server.
use cloudshell_shell_automat.Base.{String, ℕ, List, ◌∷◌}
use cloudshell_shell_automat.Base.Dict.{Dict}
use cloudshell_shell_automat.Exec.{Exec, Result, ok}

-- `ReservationSlimStatus`
pub record ReservationStatus : Type 0 where
  pub provisioning_status : String
  pub status : String

-- The fields of a `ResourceInfo` that hold no other one.
pub record ResourceHead : Type 0 where
  pub name : String
  pub address : String
  pub family : String
  pub model : String
  -- `ResourceAttributes`, as pairs of `Name` and `Value`
  pub attributes : Dict String

-- `ResourceInfo` with its `ChildResources`
mutual
  pub data ResourceInfo : Type 0 where
    resource_info : ResourceHead → Children → ResourceInfo

  pub data Children : Type 0 where
    no_child : Children
    child : ResourceInfo → Children → Children

abbrev pub head : ResourceInfo → ResourceHead
head (resource_info h cs) = h

abbrev pub children : ResourceInfo → Children
children (resource_info h cs) = cs

pub data Call : Type 0 where
  -- `CloudShellAPISession(...)`
  connect : Call
  add_shell delete_shell import_package : String → Call
  update_shell : String → String → Call
  -- name, user, duration
  create_immediate_reservation : String → String → ℕ → Call
  -- name, user, duration, topology, global inputs
  create_immediate_topology_reservation : String → String → ℕ → String → Dict String → Call
  get_reservation_status get_reservation_errors : String → Call
  end_reservation delete_reservation : String → Call
  -- family, model, name, address, parent
  create_resource : String → String → String → String → String → Call
  rename_resource : String → String → Call
  set_attributes_values : String → Dict String → Call
  get_resource_commands auto_load delete_resource get_resource_details : String → Call
  update_resource_driver : String → String → Call
  add_resources_to_reservation remove_resources_from_reservation : String → List String → Call
  add_service_to_reservation : String → String → String → Dict String → Call
  -- reservation, target, type of the target, command, inputs
  execute_command : String → String → String → String → Dict String → Call
  execute_environment_command : String → String → Dict String → Call
  get_topologies_by_category get_topology_details get_reservation_details : String → Call
  update_physical_connection : String → String → Call
  set_connector : String → String → String → String → Call
  connect_routes disconnect_routes remove_connectors : String → List String → Call
  get_resources_positions : String → Call
  refresh_vm_details : String → List String → Call
  sleep : ℕ → Call
  ping : String → Call

-- The calls made so far, the latest first.
abbrev pub Calls : Type 0
Calls = List Call

pub record Api : Type 0 where
  -- the session's `username`
  pub username : String
  -- a call with no result that is used
  pub accept : Calls → Call → Result (Unit {0})
  -- a call for a text: a reservation's id, a command's output
  pub text : Calls → Call → Result String
  -- a call for names: of commands, topologies, apps, resources
  pub names : Calls → Call → Result (List String)
  pub status : Calls → Call → Result ReservationStatus
  pub resource : Calls → Call → Result ResourceInfo
  pub errors : Calls → Call → Result (List (String × String))
  -- no part of the server: the positions by which the futures that are there are put in an order
  pub order : Calls → ℕ → ℕ

-- A call is noted, whatever its reply.
abbrev pub perform : {A : Type 0} → (Calls → Call → Result A) → Call → Exec Calls A
perform reply c calls = (reply calls c, c ∷ calls)

-- `time.sleep`
abbrev pub pause : ℕ → Exec Calls (Unit {0})
pause n calls = (ok tt, Call.sleep n ∷ calls)
