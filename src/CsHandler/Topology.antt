-- ===== src/CsHandler/Topology.antt =====
-- `CloudShellHandler` of shell_tests/handlers/cs_handler.py: topologies, and what a reservation holds.
use cloudshell_shell_automat.Base.{String, ◌<>◌, List, [], ◌∷◌, map}
use cloudshell_shell_automat.Base.Dict.{Dict}
use cloudshell_shell_automat.Exec.{Exec, Result, ◌>>◌}
use cloudshell_shell_automat.Api.{Api, Call, Calls, perform}

module _ (api : Api) where
  unfoldable pub add_resource_to_reservation : String → String → Exec Calls (Unit {0})
  add_resource_to_reservation rid name =
      perform api.accept (Call.add_resources_to_reservation rid (name ∷ []))

  unfoldable pub remove_resource_from_reservation : String → String → Exec Calls (Unit {0})
  remove_resource_from_reservation rid name =
      perform api.accept (Call.remove_resources_from_reservation rid (name ∷ []))

  unfoldable pub add_service_to_reservation :
      String → String → String → Dict String → Exec Calls (Unit {0})
  add_service_to_reservation rid model name attributes =
      let qualified = map (λ (a : String × String). (model <> ("." <> a.0), a.1)) attributes in
      perform api.accept (Call.add_service_to_reservation rid model name qualified)

  unfoldable pub get_topologies_by_category : String → Exec Calls (List String)
  get_topologies_by_category category = perform api.names (Call.get_topologies_by_category category)

  -- Of the details only the names of the apps are used.
  unfoldable pub get_topology_details : String → Exec Calls (List String)
  get_topology_details topology = perform api.names (Call.get_topology_details topology)

  unfoldable pub add_physical_connection : String → String → Exec Calls (Unit {0})
  add_physical_connection port1 port2 =
      perform api.accept (Call.update_physical_connection port1 port2)

  unfoldable pub connect_ports_with_connector :
      String → String → String → String → Exec Calls (Unit {0})
  connect_ports_with_connector rid port1 port2 connector =
      perform api.accept (Call.set_connector rid port1 port2 connector)
      >> perform api.accept (Call.connect_routes rid (port1 ∷ port2 ∷ []))

  unfoldable pub remove_connector : String → String → String → Exec Calls (Unit {0})
  remove_connector rid port1 port2 =
      perform api.accept (Call.disconnect_routes rid (port1 ∷ port2 ∷ []))
      >> perform api.accept (Call.remove_connectors rid (port1 ∷ port2 ∷ []))

  unfoldable pub get_resources_names_in_reservation : String → Exec Calls (List String)
  get_resources_names_in_reservation rid = perform api.names (Call.get_resources_positions rid)

  unfoldable pub refresh_vm_details : String → List String → Exec Calls (Unit {0})
  refresh_vm_details rid apps = perform api.accept (Call.refresh_vm_details rid apps)

-- What the server tells of a reservation is of no type of the program, and given back as it is.
module _ {A : Type 0} (describe : Calls → Call → Result A) where
  unfoldable pub get_reservation_details : String → Exec Calls A
  get_reservation_details rid = perform describe (Call.get_reservation_details rid)
