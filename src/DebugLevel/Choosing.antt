-- ===== src/DebugLevel/Choosing.antt =====
-- `set_debug_log_level` of shell_tests/helpers/cs_helpers.py: by the dependencies of the Shells, or by a
-- sandbox. The files of dependencies are texts of bytes by their paths.
use cloudshell_shell_automat.Base.{
  String, ◌≡◌, refl, inl, inr, Bool, Bool-cases, true, not, Option, none, some, is_none, List, [],
  ◌∷◌, any, arith, if◌then◌else◌,
}
use cloudshell_shell_automat.Base.Dict.{Dict, lookup, insert}
use cloudshell_shell_automat.Errors.{Exc, file_not_found, other}
use cloudshell_shell_automat.Exec.{Exec, Result-cases, err, raise, on, skip, ◌>>◌}
use cloudshell_shell_automat.Api.{Api}
use cloudshell_shell_automat.Configs.{ShellConfig}
use cloudshell_shell_automat.ResourceHandler.State.{ResourceHandler}
use cloudshell_shell_automat.Smb.{SmbServer}
use cloudshell_shell_automat.SmbHandler as Smb
use cloudshell_shell_automat.Dependencies.{ZipFormat, patch_dependencies}
use cloudshell_shell_automat.DebugLevel.{Asked, set_log_level_via_sandbox}

-- The files, and what the share and the server were asked.
pub record Setting : Type 0 where
  pub files : Dict String
  pub asked : Asked

abbrev on_files : {A : Type 0} → Exec (Dict String) A → Exec Setting A
on_files = on (λ s. s.files) (λ f s. record s { files = f })

abbrev on_asked : {A : Type 0} → Exec Asked A → Exec Setting A
on_asked = on (λ s. s.asked) (λ a s. record s { asked = a })

module _ (format : ZipFormat) where
  unfoldable pub patch_file : String → Exec (Dict String) (Unit {0})
  unfolding lookup insert patch_dependencies
  patch_file path files = elim (lookup path files) [
    | none ↦ (err (file_not_found path), files)
    | some bytes ↦
        let (r, bytes') = patch_dependencies format bytes in (r, insert path bytes' files)
  ]

  -- `patch_dependencies(conf.dependencies_path)`, where `None` has no `name`
  abbrev patch_path : Option String → Exec (Dict String) (Unit {0})
  patch_path none = raise (other "'NoneType' object has no attribute 'name'")
  patch_path (some path) = patch_file path

  unfoldable pub patch_each : List ShellConfig → Exec (Dict String) (Unit {0})
  unfolding patch_file
  patch_each [] = skip
  patch_each (conf ∷ confs) = patch_path conf.dependencies_path >> patch_each confs

  abbrev pub has_dependencies : ShellConfig → Bool
  has_dependencies conf = not (is_none conf.dependencies_path)

  abbrev pub has_none : ShellConfig → Bool
  has_none conf = is_none conf.dependencies_path

  patch_path_none :
      (o : Option String) (k : Exec (Dict String) (Unit {0})) (files : Dict String)
      → is_none o ≡ true
      → (e : Exc) × (((patch_path o >> k) files).0 ≡ err e)
  patch_path_none none k files h = (other "'NoneType' object has no attribute 'name'", refl)
  patch_path_none (some path) k files h = absurd (cc h)

  patch_each-raises :
      (confs : List ShellConfig) (files : Dict String)
      → any has_none confs ≡ true
      → (e : Exc) × ((patch_each confs files).0 ≡ err e)
  unfolding patch_each
  patch_each-raises [] files h = absurd (cc h)
  patch_each-raises (conf ∷ confs) files h = elim (Bool-cases (has_none conf)) [
    | inl missing ↦ patch_path_none conf.dependencies_path (patch_each confs) files missing
    | inr there ↦ elim (Result-cases (patch_path conf.dependencies_path files).0) [
      | inr (e, bad) ↦ (e, ground (arith, bad))
      | inl (u, good) ↦
          let (e, later) =
            patch_each-raises confs (patch_path conf.dependencies_path files).1
              (ground (arith, there, h)) in
          (e, ground (arith, good, later))
    ]
  ]

  module _ (api : Api) (server : SmbServer)
      (retry : (A : Type 0) → (Exc → Bool) → Exec Smb.State A → Exec Smb.State A) where
    unfoldable pub set_debug_log_level :
        List ShellConfig → List ResourceHandler → Exec Setting (Unit {0})
    unfolding patch_each set_log_level_via_sandbox
    set_debug_log_level confs handlers =
        if any has_dependencies confs
        then on_files (patch_each confs)
        else on_asked (set_log_level_via_sandbox api server retry handlers)

    -- If one Shell has dependencies and another has none, then the debug level cannot be set: it
    -- raises whatever is in the files, and neither the share nor the server is asked for anything.
    pub set_debug_log_level-raises :
        (confs : List ShellConfig) (handlers : List ResourceHandler) (s : Setting)
        → any has_dependencies confs ≡ true
        → any has_none confs ≡ true
        → (e : Exc) × ((set_debug_log_level confs handlers s).0 ≡ err e)
          × ((set_debug_log_level confs handlers s).1.asked ≡ s.asked)
    unfolding set_debug_log_level
    set_debug_log_level-raises confs handlers s some_has one_has_not =
        let (e, bad) = patch_each-raises confs s.files one_has_not in
        (e, rw some_has bad, rw some_has refl)
