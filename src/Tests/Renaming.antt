-- ===== src/Tests/Renaming.antt =====
-- Names that are taken, and the new ones.
use cloudshell_shell_automat.Base.{refl, [], arith}
use cloudshell_shell_automat.CsHandler.Resources.{has_code, rename_resource}
use cloudshell_shell_automat.CsHandler.Resources.Renaming.{Renames, rename_resource-Renames}
use cloudshell_shell_automat.Tests.{known, name_is_taken, strict_server}

rename_example :
    Renames strict_server known name_is_taken "fw" 2
      (rename_resource strict_server 3 "Chassis" "fw" [])
unfolding has_code
rename_example =
    rename_resource-Renames strict_server known name_is_taken 3 "Chassis" "fw" [] refl
      (λ calls name. refl) refl (omega arith)
