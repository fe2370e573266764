-- ===== src/DoHandler/Topology.antt =====
-- `_find_topology_name_for_cloudshell` and `_find_topology_name_for_app` of
-- shell_tests/handlers/do_handler.py, which differ in the category and in the text of the error.
pub mod Least
use Prim.Native.String.{[], ◌∷◌}
use cloudshell_shell_automat.Base.{
  String, code, ◌==◌, Bool, true, false, ◌&&◌, ◌||◌, ltb, ◌=?◌, Option, none, some, List,
  break_first, if◌then◌else◌, first,
}
use cloudshell_shell_automat.Errors.{base_automation}
use cloudshell_shell_automat.Exec.{Exec, pure, raise, ◌>>=◌}
use cloudshell_shell_automat.Api.{Api, Calls}
use cloudshell_shell_automat.CsHandler

-- `a <= b` on texts
unfoldable pub text_leb : String → String → Bool
text_leb [] b = true
text_leb (c ∷ a) [] = false
text_leb (c ∷ a) (d ∷ b) = ltb (code c) (code d) || code c =? code d && text_leb a b

-- `sorted(names)`, by insertion
unfoldable pub place : String → List String → List String
unfolding text_leb
place x List.[] = List.◌∷◌ x List.[]
place x (List.◌∷◌ y ys) =
    let rest = place x ys in if text_leb x y then List.◌∷◌ x (List.◌∷◌ y ys) else List.◌∷◌ y rest

unfoldable pub sorted : List String → List String
unfolding place
sorted List.[] = List.[]
sorted (List.◌∷◌ x xs) = place x (sorted xs)

-- `topology_name.split("/", 1)[-1] == wanted`
unfoldable pub is_named : String → String → Bool
unfolding break_first
is_named wanted topology_name = elim (break_first b'/' topology_name) [
  | none ↦ topology_name == wanted
  | some (a, b) ↦ b == wanted
]

module _ (api : Api) where
  unfoldable pub find_topology_name : String → String → String → Exec Calls String
  unfolding sorted is_named
  find_topology_name category wanted message = do
    names ← CsHandler.get_topologies_by_category api category
    elim (first (is_named wanted) (sorted names)) [
      | none ↦ raise (base_automation message)
      | some topology_name ↦ pure topology_name
    ]
