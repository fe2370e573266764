-- ===== src/ResourceHandler/Deployed.antt =====
-- `DeploymentResourceHandler`. `model` and `device_ip` are cached from the first reply; the cache is
-- a field that is empty at first.
use cloudshell_shell_automat.Base.{
  String, ℕ, not, Option, none, some, [], ◌∷◌, if◌then◌else◌, is_empty,
}
use cloudshell_shell_automat.Base.Dict.{Dict, update}
use cloudshell_shell_automat.Exec.{Exec, ok, err, pure, modify, on, when, ◌>>=◌, ◌>>◌}
use cloudshell_shell_automat.Api.{Api, Calls, ResourceInfo, head}
use cloudshell_shell_automat.CsHandler
use cloudshell_shell_automat.Configs.{DeploymentResourceConfig}
use cloudshell_shell_automat.SandboxHandler
use cloudshell_shell_automat.SandboxHandler.{SandboxHandler}

pub record DeploymentResourceHandler : Type 0 where
  pub conf : DeploymentResourceConfig
  pub name : String
  pub vm_name : String
  pub attributes : Dict String
  pub sandbox : SandboxHandler
  pub cached_model : Option String
  pub cached_ip : Option String

pub record Deployed : Type 0 where
  pub self : DeploymentResourceHandler
  pub calls : Calls

abbrev on_server : {A : Type 0} → Exec Calls A → Exec Deployed A
on_server = on (λ s. s.calls) (λ calls s. record s { calls = calls })

abbrev set_handler :
    (DeploymentResourceHandler → DeploymentResourceHandler) → Exec Deployed (Unit {0})
set_handler f = modify (λ s. record s { self = f s.self })

module _ (api : Api) where
  unfoldable pub get_details : Exec Deployed ResourceInfo
  get_details s = on_server (CsHandler.get_resource_details api s.self.name) s

  unfoldable pub model : Exec Deployed String
  unfolding get_details
  model s = elim s.self.cached_model [
    | some m ↦ (ok m, s)
    | none ↦
        (do
          info ← get_details
          set_handler (λ r. record r { cached_model = some (head info).model })
          pure (head info).model)
          s
  ]

  unfoldable pub device_ip : Exec Deployed String
  unfolding get_details
  device_ip s = elim s.self.cached_ip [
    | some ip ↦ (ok ip, s)
    | none ↦
        (do
          info ← get_details
          set_handler (λ r. record r { cached_ip = some (head info).address })
          pure (head info).address)
          s
  ]

  unfoldable pub set_attributes : Dict String → Exec Deployed (Unit {0})
  unfolding model
  set_attributes attributes = do
    namespace ← (λ (s : Deployed). if not s.self.conf.is_first_gen then model s else (ok "", s))
    (λ (s : Deployed).
        on_server (CsHandler.set_resource_attributes api s.self.name namespace attributes) s)
    set_handler (λ r. record r { attributes = update r.attributes attributes })

  -- `DeploymentResourceHandler.create_resource`
  unfoldable pub create_resource :
      DeploymentResourceConfig → SandboxHandler → Exec Calls DeploymentResourceHandler
  unfolding set_attributes
  create_resource conf sandbox = do
    vm_name ← SandboxHandler.get_deployment_resource_name api sandbox
    (λ calls.
        let handler : DeploymentResourceHandler = record {
          conf = conf;
          name = vm_name;
          vm_name = vm_name;
          attributes = [];
          sandbox = sandbox;
          cached_model = none;
          cached_ip = none;
        } in
        let (r, s) =
          when (not (is_empty conf.attributes)) (set_attributes conf.attributes)
            (record { self = handler; calls = calls }) in
        elim r [ ok u ↦ (ok s.self, s.calls) | err e ↦ (err e, s.calls) ])

  unfoldable pub rename : ℕ → String → Exec Deployed (Unit {0})
  rename fuel new_name s =
      (do
        name ← on_server (CsHandler.rename_resource api fuel s.self.name new_name)
        set_handler (λ r. record r { name = name }))
        s

  unfoldable pub refresh_vm_details : Exec Deployed (Unit {0})
  refresh_vm_details s =
      on_server (SandboxHandler.refresh_vm_details api s.self.sandbox (s.self.name ∷ [])) s
