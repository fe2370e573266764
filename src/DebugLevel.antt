-- ===== src/DebugLevel.antt =====
-- shell_tests/helpers/cs_helpers.py behind generate_new_resource_name, and set_debug_logs/__main__.py.
-- The futures of the pool run one after another. Of `int`, only what it makes of digits.
pub mod Venv
pub mod Leaving
pub mod Choosing
use cloudshell_shell_automat.Base.{
  String, ℕ, ◌<>◌, Bool, true, false, Option, none, some, List, [], ◌∷◌, starts_with, is_blank,
  all_digits, digits_value, replace, split, keep, map, any, ltb, not, repr_list, if◌then◌else◌,
}
use cloudshell_shell_automat.Base.Dict.{Dict, lookup, insert}
use cloudshell_shell_automat.Errors.{Exc, base_automation, value_error, other}
use cloudshell_shell_automat.Exec.{
  Exec, Result, ok, err, pure, raise, finally, on, skip, ◌>>=◌, ◌>>◌,
}
use cloudshell_shell_automat.Api.{Api, Calls}
use cloudshell_shell_automat.CsHandler
use cloudshell_shell_automat.Configs.{SandboxConfig, TestsConfig}
use cloudshell_shell_automat.SandboxHandler
use cloudshell_shell_automat.SandboxHandler.{SandboxHandler}
use cloudshell_shell_automat.ResourceHandler.State as Resource
use cloudshell_shell_automat.ResourceHandler.State.{ResourceHandler}
use cloudshell_shell_automat.ResourceHandler.Commands.{health_check}
use cloudshell_shell_automat.Smb.{SmbServer}
use cloudshell_shell_automat.SmbHandler as Smb
use cloudshell_shell_automat.SmbHandler.CloudShell.{get_venv_names, get_qs_config, put_qs_config}
use cloudshell_shell_automat.Dependencies.{to_debug}
use cloudshell_shell_automat.RunTests.{results}

-- The handler of a resource, the session with the share, and the calls of the server.
pub record State : Type 0 where
  pub handler : ResourceHandler
  pub smb : Smb.State
  pub calls : Calls

abbrev pub on_handler : {A : Type 0} → Exec Resource.State A → Exec State A
on_handler =
    on (λ s. record { self = s.handler; calls = s.calls })
      (λ r s. record s { handler = r.self; calls = r.calls })

abbrev pub on_smb : {A : Type 0} → Exec Smb.State A → Exec State A
on_smb = on (λ s. s.smb) (λ t s. record s { smb = t })

-- `int(s)`
abbrev int_of : String → Result ℕ
int_of s =
    if is_blank s
    then err (value_error "int")
    else if all_digits s
    then ok (digits_value 0 s)
    else err (value_error "int")

abbrev first_part : List String → String
first_part [] = ""
first_part (s ∷ parts) = s

-- The key of a name: `int(name.replace(prefix, "").split("_")[0])`.
unfoldable pub version_of : String → String → Result ℕ
unfolding all_digits digits_value replace split
version_of prefix name = int_of (first_part (split b'_' (replace name prefix "")))

-- `max` of the names behind the best so far: the first of those with the greatest key.
unfoldable pub greatest : String → String → ℕ → List String → Result String
unfolding version_of
greatest prefix best v [] = ok best
greatest prefix best v (name ∷ names) = elim (version_of prefix name) [
  | err e ↦ err e
  | ok w ↦ elim (ltb v w) [
    | true ↦ greatest prefix name w names
    | false ↦ greatest prefix best v names
  ]
]

abbrev venv_error : String → List String → Exc
venv_error resource names =
    base_automation
      ("venv for the " <> (resource <> (" is not found. venv names are " <> repr_list names)))

-- The venv of a resource's model, among the names that begin with the prefix.
unfoldable pub choose_venv : String → String → List String → List String → Result String
unfolding greatest version_of repr_list
choose_venv prefix resource names [] = err (venv_error resource names)
choose_venv prefix resource names (name ∷ suitable) = elim (version_of prefix name) [
  | err e ↦ err e
  | ok v ↦ greatest prefix name v suitable
]

abbrev pub has_prefix : String → String → Bool
has_prefix prefix name = starts_with name prefix

unfoldable pub find_venv : String → String → List String → Result String
unfolding choose_venv
find_venv prefix resource names = choose_venv prefix resource names (keep (has_prefix prefix) names)

-- `f"{model.replace(' ', '_')}_"`
unfoldable pub venv_prefix : String → String
unfolding replace
venv_prefix model = replace model " " "_" <> "_"

-- The session with the share, and the calls of the server.
pub record Asked : Type 0 where
  pub smb : Smb.State
  pub calls : Calls

abbrev pub on_calls : {A : Type 0} → Exec Calls A → Exec Asked A
on_calls = on (λ s. s.calls) (λ calls s. record s { calls = calls })

abbrev pub tmp_sandbox : SandboxConfig
tmp_sandbox = record {
  name = "tmp-sandbox";
  resource_names = [];
  deployment_resource_names = [];
  service_names = [];
  blueprint_name = none;
  specific_version = none;
  tests_conf = record { expected_failures = []; run_tests = true; original_run_tests = none };
}

module _ (api : Api) (server : SmbServer)
    (retry : (A : Type 0) → (Exc → Bool) → Exec Smb.State A → Exec Smb.State A) where
  unfoldable pub set_debug_log_level_for_resource : SandboxHandler → Exec State (Unit {0})
  unfolding health_check find_venv venv_prefix get_venv_names get_qs_config put_qs_config to_debug
  set_debug_log_level_for_resource sandbox s =
      (do
        on_handler (Resource.add_to_reservation api sandbox)
        on_handler (health_check api)
        names ← on_smb (get_venv_names server retry)
        venv_name ← (λ t. (find_venv (venv_prefix s.handler.model) s.handler.name names, t))
        config ← on_smb (get_qs_config server retry venv_name)
        on_smb (put_qs_config server retry venv_name (to_debug config)))
        s

  -- The futures, to their ends, and what the session with the share and the server were asked.
  unfoldable pub set_for_each :
      SandboxHandler → List ResourceHandler → Asked → List (Result (Unit {0})) × Asked
  unfolding set_debug_log_level_for_resource
  set_for_each sandbox [] s = ([], s)
  set_for_each sandbox (h ∷ hs) s =
      let (r, t) =
        set_debug_log_level_for_resource sandbox
          (record { handler = h; smb = s.smb; calls = s.calls }) in
      let (rs, s') = set_for_each sandbox hs (record { smb = t.smb; calls = t.calls }) in
      (r ∷ rs, s')

  abbrev set_for_all : SandboxHandler → List ResourceHandler → Exec Asked (Unit {0})
  set_for_all sandbox hs s = let (rs, s') = set_for_each sandbox hs s in (results rs, s')

  -- `_set_log_level_via_sandbox`
  unfoldable pub set_log_level_via_sandbox : List ResourceHandler → Exec Asked (Unit {0})
  unfolding set_for_each results
  set_log_level_via_sandbox handlers =
      on_calls (SandboxHandler.create api tmp_sandbox 120) >>= λ sandbox.
      finally (set_for_all sandbox handlers) (on_calls (SandboxHandler.finish api sandbox false))

-- `set_debug_level_via_blueprint`
module _ (api : Api) (bp_script_path : String) where
  unfoldable pub set_debug_level_via_blueprint : Exec Calls (Unit {0})
  set_debug_level_via_blueprint =
      CsHandler.import_package api bp_script_path
      >> (CsHandler.create_topology_reservation api "scripts" "scripts" 1440 "" >>= λ rid.
          CsHandler.execute_reservation_command api rid "set_debug_logs" [] >> skip)

-- `set_log_level`, by the settings of the file, of which there are two at least
unfoldable pub set_log_level : String → Dict String → Dict String
unfolding insert
set_log_level level settings =
    insert "DefaultPythonEnvrionmentVariables" ("LOG_LEVEL=" <> level) settings
