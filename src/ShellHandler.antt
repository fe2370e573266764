-- ===== src/ShellHandler.antt =====
-- shell_tests/handlers/shell_handler.py: `ShellHandler`, and shell_tests/helpers/shell_helpers.py.
-- Reading the definition out of the Shell's archive and the SMB handler are parameters.
pub mod Preparing
use cloudshell_shell_automat.Base.{
  String, Bool, true, false, not, ◌&&◌, Option, none, some, List, is_empty, is_none, contains,
  break_last, if◌then◌else◌,
}
use cloudshell_shell_automat.Errors.{Exc, shell_not_found, is_exception, str_of}
use cloudshell_shell_automat.Exec.{
  Exec, Result, ok, err, pure, raise, catch, skip, when, ◌>>=◌, ◌>>◌,
}
use cloudshell_shell_automat.Api.{Api, Calls}
use cloudshell_shell_automat.CsHandler
use cloudshell_shell_automat.Configs.{ShellConfig}

-- What is read of shell-definition.yaml: the first node type and the template's name.
pub record ShellDefinition : Type 0 where
  pub node_type : String
  pub template_name : String

-- The methods of `CloudShellSmbHandler` that a Shell's handler calls. HandlerStorage.Offline fills
-- them with those of SmbHandler.CloudShell.
pub record CloudShellSmb : Type 0 where
  pub add_dependencies_to_offline_pypi : String → Exec Calls (Unit {0})
  pub add_extra_standards : List String → Exec Calls (Unit {0})
  pub clear_offline_pypi : Exec Calls (Unit {0})

pub record ShellHandler : Type 0 where
  pub conf : ShellConfig
  pub model : String
  pub cs_shell_name : String

-- `node_type.rsplit(".", 1)[-1]`
unfoldable pub model_of_node_type : String → String
unfolding break_last
model_of_node_type node_type = elim (break_last b'.' node_type) [
  | none ↦ node_type
  | some (before, after) ↦ after
]

abbrev handler_of : ShellConfig → ShellDefinition → ShellHandler
handler_of conf d = record {
  conf = conf;
  model = model_of_node_type d.node_type;
  cs_shell_name = d.template_name;
}

-- The `except` clauses of `finish`.
unfoldable pub forgives_removal : Exc → Bool
unfolding is_exception str_of
forgives_removal shell_not_found = true
forgives_removal e = is_exception e && contains "This shell is used" (str_of e)

module _ (api : Api) (retry : (Exc → Bool) → Exec Calls (Unit {0}) → Exec Calls (Unit {0}))
    (smb : Option CloudShellSmb) where
  add_dependencies : Option String → Exec Calls (Unit {0})
  add_dependencies none = skip
  add_dependencies (some path) = elim smb [
    | none ↦ skip
    | some h ↦ h.add_dependencies_to_offline_pypi path
  ]

  unfoldable pub store_extra_files : ShellHandler → Exec Calls (Unit {0})
  unfolding add_dependencies
  store_extra_files self =
      add_dependencies self.conf.dependencies_path
      >> when (not (is_empty self.conf.extra_standards_paths)) (elim smb [
        | none ↦ skip
        | some h ↦ h.add_extra_standards self.conf.extra_standards_paths
      ])

  unfoldable pub finish : ShellHandler → Exec Calls (Unit {0})
  unfolding forgives_removal
  finish self =
      catch (CsHandler.remove_shell api self.cs_shell_name)
        (λ e. if forgives_removal e then skip else raise e)
      >> when (not (is_none self.conf.dependencies_path))
          (elim smb [ none ↦ skip | some h ↦ h.clear_offline_pypi ])

  unfoldable pub prepare : ShellHandler → Exec Calls (Unit {0})
  unfolding store_extra_files finish is_exception
  prepare self =
      catch (store_extra_files self >> CsHandler.install_shell api retry self.conf.path)
        (λ e. when (is_exception e) (finish self) >> raise e)

  -- `ShellHandler.create`
  unfoldable pub create : (String → Result ShellDefinition) → ShellConfig → Exec Calls ShellHandler
  unfolding prepare model_of_node_type
  create definition conf calls = elim (definition conf.path) [
    | err e ↦ (err e, calls)
    | ok d ↦ (prepare (handler_of conf d) >> pure (handler_of conf d)) calls
  ]
