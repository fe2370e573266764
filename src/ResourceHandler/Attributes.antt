-- ===== src/ResourceHandler/Attributes.antt =====
-- `ResourceHandler.set_children_attributes` and `_set_child_attribute`.
pub mod Namespaces
use cloudshell_shell_automat.Base.{
  String, ◌<>◌, ◌≡◌, Bool, true, false, Option, none, some, List, [], ◌∷◌, ◌==◌, break_last,
  if◌then◌else◌,
}
use cloudshell_shell_automat.Base.Dict.{Dict}
use cloudshell_shell_automat.Errors.{Exc, value_error}
use cloudshell_shell_automat.Exec.{Exec, Result, ok, err, pure, raise, for_each, ◌>>=◌, ◌>>◌}
use cloudshell_shell_automat.Api.{Api, Call, Calls, ResourceInfo, ResourceHead, head}
use cloudshell_shell_automat.CsHandler
use cloudshell_shell_automat.ResourceHandler.State.{ResourceHandler, State, cs}

-- The loop over the child's attributes: `namespace` is assigned in each round, and the loop ends at
-- the attribute that is looked for. `Name.rsplit(".", 1)` raises if the name has no dot.
unfoldable pub find_namespace : String → String → Dict String → Result String
find_namespace wanted namespace [] = ok namespace
find_namespace wanted namespace ((full, value) ∷ rest) = elim (break_last b'.' full) [
  | none ↦ err (value_error "not enough values to unpack (expected 2, got 1)")
  | some (before, name) ↦
      let later = find_namespace wanted before rest in if name == wanted then ok before else later
]

module _ (api : Api) where
  unfoldable pub set_child_attribute : ResourceInfo → String → String → Exec Calls (Unit {0})
  unfolding find_namespace
  set_child_attribute child name value =
      (λ calls. (find_namespace name (head child).model (head child).attributes, calls))
      >>= λ namespace.
          CsHandler.set_resource_attributes api (head child).name namespace ((name, value) ∷ [])

  set_child : String → String × Dict String → Exec Calls (Unit {0})
  unfolding set_child_attribute
  set_child parent (child_name, attributes) = do
    child ← CsHandler.get_resource_details api (parent <> ("/" <> child_name))
    for_each attributes (λ (a : String × String). set_child_attribute child a.0 a.1)

  unfoldable pub set_children_attributes : Dict (Dict String) → Exec State (Unit {0})
  unfolding set_child
  set_children_attributes children_attributes s =
      cs (for_each children_attributes (set_child s.self.name)) s
