-- ===== src/Packages/Package.antt =====
-- `PackageApi` of shell_tests/helpers/package_api/package_api.py, the `Blueprint` of its models, and
-- shell_tests/helpers/app_helpers.py. The package is the list of its entries, or nothing once its file is
-- deleted; `unparse` and the bytes of the driver are parameters. Writing files does not fail here.
pub mod Ending
use cloudshell_shell_automat.Base.{
  String, ℕ, ◌<>◌, ◌==◌, Bool, true, false, Option, none, some, List, [], ◌∷◌, ◌++◌, map, decimal,
  or_else, if◌then◌else◌,
}
use cloudshell_shell_automat.Base.Dict.{Dict}
use cloudshell_shell_automat.Errors.{Exc, key_error, index_error, file_not_found, no_fuel}
use cloudshell_shell_automat.Exec.{
  Exec, Result, ok, err, pure, raise, modify, finally, on, for_each, skip, ◌>>=◌, ◌>>◌,
}
use cloudshell_shell_automat.Api.{Api, Calls}
use cloudshell_shell_automat.CsHandler
use cloudshell_shell_automat.Configs.{AppConfig, BlueprintConfig}
use cloudshell_shell_automat.ResourceHandler.State.{ResourceHandler}
use cloudshell_shell_automat.Packages.{
  Xml, Fields, Items, App, DeploymentPath, app_xml, app_fields, metadata_xml, join_fields, schemas,
}
use cloudshell_shell_automat.Packages.Position.{AppPosition, new_app_position, get_new_position}

abbrev pub Entries : Type 0
Entries = List (String × String)

-- The file of the package, `_driver_added`, and the calls of the server.
pub record State : Type 0 where
  pub file : Option Entries
  pub driver_added : Bool
  pub calls : Calls

abbrev entries_of : Option Entries → Entries
entries_of none = []
entries_of (some entries) = entries

-- `zf.writestr(name, bytes)` on a file opened to append, which makes a missing file
abbrev write_entry : String → String → Exec State (Unit {0})
write_entry name bytes =
    modify (λ s. record s { file = some (entries_of s.file ++ ((name, bytes) ∷ [])) })

-- `app.deployment_paths[0].is_default = True`
abbrev with_default : App → List DeploymentPath → Result App
with_default app [] = err index_error
with_default app (d ∷ ds) =
    ok (record app { deployment_paths = (record d { is_default = true }) ∷ ds })

-- The first loop of `get_apps_dict`. It writes to the apps.
unfoldable pub set_defaults : List App → Result (List App)
set_defaults [] = ok []
set_defaults (app ∷ apps) = elim (with_default app app.deployment_paths) [
  | err e ↦ err e
  | ok first ↦ elim (set_defaults apps) [ err e ↦ err e | ok rest ↦ ok (first ∷ rest) ]
]

module _ (random : ℕ → ℕ × ℕ) (fuel : ℕ) where
  abbrev placed : App → ℕ × ℕ → Xml
  placed app (x, y) = Xml.dict (
      Fields.field "@PositionX" (Xml.text (decimal x)) (
        Fields.field "@PositionY" (Xml.text (decimal y))
          (Fields.field "@TemplateName" (Xml.text app.name) (app_fields app))))

  -- The list that `get_apps_dict` returns.
  place_apps : List App → AppPosition → Result Items
  unfolding get_new_position app_fields
  place_apps [] s = ok Items.nil
  place_apps (app ∷ apps) s = elim (get_new_position random fuel s) [
    | none ↦ err no_fuel
    | some (p, t) ↦ elim (place_apps apps t) [
      | err e ↦ err e
      | ok rest ↦ ok (Items.item (placed app p) rest)
    ]
  ]

  unfoldable pub get_apps_dict : List App → Result Items
  unfolding set_defaults place_apps
  get_apps_dict apps = elim (set_defaults apps) [
    | err e ↦ err e
    | ok apps' ↦ place_apps apps' new_app_position
  ]

  abbrev script : String → Xml
  script name = Xml.dict (Fields.field "@Name" (Xml.text name) Fields.end)

  -- `Blueprint.to_xml_dict`
  blueprint_fields : String → Fields
  blueprint_fields name =
      Fields.field "Details"
        (Xml.dict (
          Fields.field "@Name" (Xml.text name) (
            Fields.field "@Public" (Xml.text "false") (
              Fields.field "@Driver" (Xml.text "Python Setup & Teardown") (
                Fields.field "@SetupDuration" (Xml.text "10") (
                  Fields.field "@TeardownDuration" (Xml.text "10") (
                    Fields.field "@EnableSandboxSave" (Xml.text "true") (
                      Fields.field "Scripts"
                        (Xml.dict (
                          Fields.field "Script"
                            (Xml.list (
                              Items.item (script "Default Sandbox Save 3.0") (
                                Items.item (script "Default Sandbox Teardown 3.0") (
                                  Items.item (script "Default Sandbox Restore 3.0")
                                    (Items.item (script "Default Sandbox Setup 3.0") Items.nil)))))
                            Fields.end))
                        Fields.end))))))))
        Fields.end

  abbrev with_apps : String → Result Items → Result Xml
  with_apps name (err e) = err e
  with_apps name (ok items) = ok (
      Xml.dict (
        Fields.field "TopologyInfo"
          (Xml.dict (
            schemas (
              join_fields (blueprint_fields name) (
                Fields.field "Apps" (Xml.dict (Fields.field "App" (Xml.list items) Fields.end))
                  Fields.end))))
          Fields.end))

  -- `Blueprint.get_xml_root_dict`
  unfoldable pub blueprint_xml : String → List App → Result Xml
  unfolding get_apps_dict blueprint_fields join_fields
  blueprint_xml name apps = with_apps name (get_apps_dict apps)

  module _ (unparse : Xml → String) (driver now : String) where
    unfoldable pub add_metadata : Exec State (Unit {0})
    unfolding metadata_xml
    add_metadata = write_entry "metadata.xml" (unparse (metadata_xml "" now))

    unfoldable pub add_app : App → Exec State (Unit {0})
    unfolding app_xml
    add_app app = write_entry ("App Templates/" <> (app.name <> ".xml")) (unparse (app_xml app))

    unfoldable pub add_python_driver : Exec State (Unit {0})
    add_python_driver s =
        if s.driver_added
        then (ok tt, s)
        else (write_entry "Topology Drivers/Python Setup & Teardown.dll" driver
              >> modify (λ s. record s { driver_added = true }))
            s

    unfoldable pub add_blueprint : String → List App → Exec State (Unit {0})
    unfolding add_python_driver blueprint_xml
    add_blueprint name apps =
        add_python_driver
        >> ((λ s. (blueprint_xml name apps, s)) >>= λ xml.
            write_entry ("Topologies/" <> (name <> ".xml")) (unparse xml))

    -- `finish`, also `__exit__`
    unfoldable pub finish : Exec State (Unit {0})
    finish = modify (λ s. record s { file = none })

    -- `create_package`: a new file, with the metadata
    unfoldable pub create_package : Exec State (Unit {0})
    unfolding add_metadata
    create_package = modify (λ s. record s { file = some []; driver_added = false }) >> add_metadata

    abbrev pub on_calls : {A : Type 0} → Exec Calls A → Exec State A
    on_calls = on (λ s. s.calls) (λ calls s. record s { calls = calls })

    module _ (api : Api) (path : String) where
      abbrev import_it : Exec State (Unit {0})
      import_it = on_calls (CsHandler.import_package api path)

      -- `create_apps`, by the models of the apps
      unfoldable pub create_apps : List App → Exec State (Unit {0})
      unfolding create_package for_each add_app finish
      create_apps apps = create_package >> finally (for_each apps add_app >> import_it) finish

      -- `create_blueprints`, by the names and apps of the blueprints
      add_blueprints : List (String × Result (List App)) → Exec State (Unit {0})
      unfolding add_blueprint
      add_blueprints [] = skip
      add_blueprints ((name, apps) ∷ rest) =
          ((λ s. (apps, s)) >>= add_blueprint name) >> add_blueprints rest

      unfoldable pub create_blueprints : List (String × Result (List App)) → Exec State (Unit {0})
      unfolding create_package add_blueprints finish
      create_blueprints blueprints =
          create_package >> finally (add_blueprints blueprints >> import_it) finish

-- `handler_storage.resource_handlers_dict[name]`
unfoldable pub find_handler : String → List ResourceHandler → Option ResourceHandler
find_handler name [] = none
find_handler name (h ∷ hs) =
    or_else (find_handler name hs) (if h.conf.name == name then some h else none)

-- `_get_app_models`
unfoldable pub get_app_models : List AppConfig → List ResourceHandler → Result (List App)
unfolding find_handler
get_app_models [] handlers = ok []
get_app_models (conf ∷ confs) handlers = elim (find_handler conf.cp_resource_name handlers) [
  | none ↦ err (key_error conf.cp_resource_name)
  | some cp ↦ elim (get_app_models confs handlers) [
    | err e ↦ err e
    | ok apps ↦ ok (
        (record {
          name = conf.name;
          deployment_paths =
              (record {
                cp_name = cp.name;
                cp_model = cp.model;
                deployment_path = conf.deployment;
                attributes = conf.attributes;
                is_default = false;
              })
              ∷ [];
        })
        ∷ apps)
  ]
]

-- `apps_dict[name]`
unfoldable pub find_app : String → List App → Option App
find_app name [] = none
find_app name (app ∷ apps) =
    or_else (find_app name apps) (if app.name == name then some app else none)

-- The apps of a blueprint, `list(map(apps_dict.__getitem__, blueprint_conf.app_names))`
unfoldable pub apps_of : List App → List String → Result (List App)
unfolding find_app
apps_of apps [] = ok []
apps_of apps (name ∷ names) = elim (find_app name apps) [
  | none ↦ err (key_error name)
  | some app ↦ elim (apps_of apps names) [ err e ↦ err e | ok rest ↦ ok (app ∷ rest) ]
]

-- The blueprints of the configuration, with their apps.
unfoldable pub blueprints_of : List App → List BlueprintConfig → List (String × Result (List App))
unfolding apps_of
blueprints_of apps confs = map (λ (c : BlueprintConfig). (c.name, apps_of apps c.app_names)) confs
