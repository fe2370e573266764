-- ===== src/Packages/Package/Ending.antt =====
-- What a package leaves behind.
use cloudshell_shell_automat.Base.{String, ℕ, ◌≡◌, none, List, arith}
use cloudshell_shell_automat.Exec.{Exec, Result, finally, for_each, ◌>>◌}
use cloudshell_shell_automat.Api.{Api}
use cloudshell_shell_automat.CsHandler
use cloudshell_shell_automat.Packages.{Xml, App}
use cloudshell_shell_automat.Packages.Package.{
  State, on_calls, create_package, add_app, add_blueprints, create_apps, create_blueprints, finish,
}

module _ (random : ℕ → ℕ × ℕ) (fuel : ℕ) (unparse : Xml → String) (driver now : String) where
  finish_removes :
      (m : Exec State (Unit {0})) (s : State)
      → ((create_package random fuel unparse driver now
            >> finally m (finish random fuel unparse driver now))
          s).1.file
        ≡ none
  unfolding create_package finish
  finish_removes m s = ground arith

  -- However the server replies, and also if an app or a blueprint cannot be added, the file of the
  -- package is gone when `create_apps` and `create_blueprints` end.
  pub create_apps-removes :
      (api : Api) (path : String) (s : State)
      → ((apps : List App)
          → (create_apps random fuel unparse driver now api path apps s).1.file ≡ none)
        × ((blueprints : List (String × Result (List App)))
            → (create_blueprints random fuel unparse driver now api path blueprints s).1.file
              ≡ none)
  unfolding create_apps create_blueprints
  create_apps-removes api path s = (
    λ apps.
        finish_removes
          (for_each apps (add_app random fuel unparse driver now)
            >> on_calls random fuel unparse driver now (CsHandler.import_package api path))
          s,
    λ blueprints.
        finish_removes
          (add_blueprints random fuel unparse driver now api path blueprints
            >> on_calls random fuel unparse driver now (CsHandler.import_package api path))
          s,
  )
