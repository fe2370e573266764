-- ===== src/CsHandler/Resources.antt =====
-- `CloudShellHandler` of shell_tests/handlers/cs_handler.py: resources and their names.
pub mod Renaming
use cloudshell_shell_automat.Base.{
  String, ℕ, zero, suc, ◌<>◌, Bool, true, false, List, map, ◌==◌, is_blank, if◌then◌else◌,
}
use cloudshell_shell_automat.Base.Dict.{Dict}
use cloudshell_shell_automat.Errors.{Exc, api_error, no_fuel}
use cloudshell_shell_automat.Exec.{Exec, pure, raise, catch, ◌>>◌}
use cloudshell_shell_automat.Api.{Api, Call, Calls, ResourceInfo, perform}
use cloudshell_shell_automat.Naming.{generate_new_resource_name}

-- `isinstance(e, CloudShellAPIError) and str(e.code) == code`
unfoldable pub has_code : String → Exc → Bool
has_code code (api_error c m t) = c == code
has_code code _ = false

-- `namespace += "." if namespace else ""` and the keys behind it.
unfoldable pub qualify : String → Dict String → Dict String
qualify namespace attributes =
    let prefix = if is_blank namespace then namespace else namespace <> "." in
    map (λ (a : String × String). (prefix <> a.0, a.1)) attributes

module _ (api : Api) where
  -- The `while True` loop, with a bound on its rounds.
  create_rounds : ℕ → String → String → String → String → Bool → String → Exec Calls String
  create_rounds zero family model address parent fresh name = raise no_fuel
  create_rounds (suc n) family model address parent fresh name =
      catch
        (perform api.accept (Call.create_resource family model name address parent) >> pure name)
        λ e. elim (has_code "114" e) [
          | false ↦ raise e
          | true ↦ elim fresh [
            | true ↦
                create_rounds n family model address parent true (generate_new_resource_name name)
            | false ↦ pure name
          ]
        ]

  -- The argument `create_new_resources_if_exists` is `fresh`.
  unfoldable pub create_resource :
      ℕ → String → String → String → String → String → Bool → Exec Calls String
  unfolding create_rounds
  create_resource fuel name model address family parent fresh =
      create_rounds fuel family model address parent fresh name

  rename_rounds : ℕ → String → String → Exec Calls String
  rename_rounds zero current_name new_name = raise no_fuel
  rename_rounds (suc n) current_name new_name =
      catch (perform api.accept (Call.rename_resource current_name new_name) >> pure new_name) λ e.
        elim (has_code "114" e) [
          | false ↦ raise e
          | true ↦ rename_rounds n current_name (generate_new_resource_name new_name)
        ]

  unfoldable pub rename_resource : ℕ → String → String → Exec Calls String
  unfolding rename_rounds
  rename_resource fuel current_name new_name = rename_rounds fuel current_name new_name

  unfoldable pub set_resource_attributes : String → String → Dict String → Exec Calls (Unit {0})
  set_resource_attributes name namespace attributes =
      perform api.accept (Call.set_attributes_values name (qualify namespace attributes))

  unfoldable pub get_resource_commands : String → Exec Calls (List String)
  get_resource_commands name = perform api.names (Call.get_resource_commands name)

  unfoldable pub delete_resource : String → Exec Calls (Unit {0})
  delete_resource name = perform api.accept (Call.delete_resource name)

  unfoldable pub get_resource_details : String → Exec Calls ResourceInfo
  get_resource_details name = perform api.resource (Call.get_resource_details name)
