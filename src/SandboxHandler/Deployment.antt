-- ===== src/SandboxHandler/Deployment.antt =====
-- `get_deployment_resource_name` finds the one resource of the app, or raises.
use cloudshell_shell_automat.Base.{
  String, ◌≡◌, refl, ap, ◌∙◌, eq_iff, inl, inr, Bool, true, List, [], ◌∷◌, elem, keep, arith,
  Bool-cases,
}
use cloudshell_shell_automat.Exec.{Result-cases, ok, err}
use cloudshell_shell_automat.Errors.{Exc}
use cloudshell_shell_automat.Api.{Api, Call, Calls}
use cloudshell_shell_automat.CsHandler
use cloudshell_shell_automat.SandboxHandler.{
  SandboxHandler, text_or_empty, is_of_app, pick_found, get_deployment_resource_name,
}

-- What is kept fits, and was there.
keep-elem :
    (p : String → Bool) (names : List String) (name : String) (rest : List String)
    → keep p names ≡ name ∷ rest
    → (p name ≡ true) × (elem name names ≡ true)
keep-elem p [] name rest h = absurd (cc h)
keep-elem p (x ∷ xs) name rest h = elim (Bool-cases (p x)) [
  | inl fits ↦ ground (arith, eq_iff x name)
  | inr not_fits ↦ ground (arith, keep-elem p xs name rest)
]

pick_found-ok :
    (app rid : String) (names found : List String) (name : String)
    → pick_found app rid names found ≡ ok name
    → found ≡ name ∷ []
unfolding pick_found
pick_found-ok app rid names [] name h = absurd (cc h)
pick_found-ok app rid names (x ∷ []) name h = cc h
pick_found-ok app rid names (x ∷ y ∷ found) name h = absurd (cc h)

module _ (api : Api) (self : SandboxHandler) (calls : Calls) where
  -- The calls that the method makes before it chooses.
  abbrev topology : Call
  topology = Call.get_topology_details (text_or_empty self.conf.blueprint_name)

  abbrev positions : Call
  positions = Call.get_resources_positions self.reservation_id

  -- What the method does once the server has given the apps and the resources.
  unfolded :
      (apps names : List String)
      → api.names calls topology ≡ ok apps
      → api.names (topology ∷ calls) positions ≡ ok names
      → (name : String) → (get_deployment_resource_name api self calls).0 ≡ ok name
      → (app : String) × (apps ≡ app ∷ []) × (keep (is_of_app app) names ≡ name ∷ [])
  unfolding get_deployment_resource_name CsHandler.get_topology_details
      CsHandler.get_resources_names_in_reservation
  unfolded [] names p q name h = absurd (ground arith)
  unfolded (app ∷ []) names p q name h = (
    app,
    refl,
    pick_found-ok app self.reservation_id names (keep (is_of_app app) names) name (ground arith),
  )
  unfolded (app ∷ other ∷ apps) names p q name h = absurd (ground arith)

  replies :
      (name : String)
      → (get_deployment_resource_name api self calls).0 ≡ ok name
      → (apps : List String) × (names : List String) × (api.names calls topology ≡ ok apps)
        × (api.names (topology ∷ calls) positions ≡ ok names)
  unfolding get_deployment_resource_name CsHandler.get_topology_details
      CsHandler.get_resources_names_in_reservation
  replies name h = elim (Result-cases (api.names calls topology)) [
    | inr (e, p) ↦ absurd (ground arith)
    | inl (apps, p) ↦ elim (Result-cases (api.names (topology ∷ calls) positions)) [
      | inl (names, q) ↦ (apps, names, p, q)
      | inr (e, q) ↦ absurd (refused apps e p q h)
    ]
  ]
    where
      refused :
          (apps : List String) (e : Exc)
          → api.names calls topology ≡ ok apps
          → api.names (topology ∷ calls) positions ≡ err e
          → (get_deployment_resource_name api self calls).0 ≡ ok name
          → ⊥
      refused [] e p q h = ground arith
      refused (app ∷ []) e p q h = ground arith
      refused (app ∷ other ∷ apps) e p q h = ground arith

  -- If the method returns a name, the blueprint has exactly one app, the name is one of the
  -- reservation's resources, it begins with the name of the app or with that name with dashes for
  -- spaces, and no other resource does.
  pub get_deployment_resource_name_sound :
      (name : String)
      → (get_deployment_resource_name api self calls).0 ≡ ok name
      → (app : String) × (names : List String) × (api.names calls topology ≡ ok (app ∷ []))
        × (api.names (topology ∷ calls) positions ≡ ok names)
        × (keep (is_of_app app) names ≡ name ∷ [])
        × (is_of_app app name ≡ true)
        × (elem name names ≡ true)
  get_deployment_resource_name_sound name h =
      let (apps, names, p, q) = replies name h in
      let (app, one, kept) = unfolded apps names p q name h in
      let (fits, there) = keep-elem (is_of_app app) names name [] kept in
      (app, names, p ∙ ap ok one, q, kept, fits, there)
