-- ===== src/DebugLevel/Leaving.antt =====
-- What the setting of the log level leaves on the server.
use cloudshell_shell_automat.Base.{String, ◌≡◌, [], ◌∷◌, arith}
use cloudshell_shell_automat.Exec.{ok}
use cloudshell_shell_automat.Api.{Api, Call, Calls}
use cloudshell_shell_automat.CsHandler.{
  import_package, create_topology_reservation, execute_reservation_command,
}
use cloudshell_shell_automat.DebugLevel.{set_debug_level_via_blueprint}

-- If the server imports the package and makes the reservation, then `set_debug_level_via_blueprint` makes three calls,
-- whatever comes of the last one: the reservation is not ended.
pub set_debug_level_via_blueprint_leaves :
    (api : Api) (bp_script_path rid : String) (calls : Calls)
    → api.accept calls (Call.import_package bp_script_path) ≡ ok tt
    → api.text
        (Call.import_package bp_script_path ∷ calls)
        (Call.create_immediate_topology_reservation "scripts" api.username 1440 "scripts" [])
      ≡ ok rid
    → (set_debug_level_via_blueprint api bp_script_path calls).1
      ≡ Call.execute_environment_command rid "set_debug_logs" []
        ∷ Call.create_immediate_topology_reservation "scripts" api.username 1440 "scripts" []
        ∷ Call.import_package bp_script_path
        ∷ calls
unfolding set_debug_level_via_blueprint import_package create_topology_reservation
    execute_reservation_command
set_debug_level_via_blueprint_leaves api bp_script_path rid calls h e = ground (arith, h, e)
