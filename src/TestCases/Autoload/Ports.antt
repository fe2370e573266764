-- ===== src/TestCases/Autoload/Ports.antt =====
-- Which trees of resources pass the test of their structure.
use cloudshell_shell_automat.Base.{
  String, ◌<>◌, ◌≡◌, Bool, Bool-cases, true, false, ◌||◌, inl, inr, contains, arith,
}
use cloudshell_shell_automat.Base.Containing.{contains-append_left, contains-append_right}
use cloudshell_shell_automat.Exec.{ok}
use cloudshell_shell_automat.Api.{Api, ResourceInfo, Children, resource_info, no_child, child}
use cloudshell_shell_automat.ResourceHandler.State.{State, get_details}
use cloudshell_shell_automat.TestCases.Autoload.{
  repr_structure, repr_rest, str_structure, check_structure,
}

-- The text is in the family of a resource of the tree.
unfoldable mutual
  pub in_a_family : String → ResourceInfo → Bool
  in_a_family part (resource_info h cs) = contains part h.family || in_a_child part cs

  pub in_a_child : String → Children → Bool
  in_a_child part no_child = false
  in_a_child part (child c cs) = in_a_family part c || in_a_child part cs

mutual
  unfolding in_a_family repr_structure

  repr_structure_lem :
      (part : String) (info : ResourceInfo)
      → in_a_family part info ≡ true
      → contains part (repr_structure info) ≡ true
  repr_structure_lem part (resource_info h no_child) e =
      contains-append_left part "'" (h.family <> "'")
        (contains-append_right part h.family "'" (ground (arith, e)))
  repr_structure_lem part (resource_info h (child c cs)) e =
      let rest = repr_structure c <> (repr_rest cs <> "]}") in
      let inner = λ (i : contains part rest ≡ true).
        contains-append_left part "{'" (h.family <> ("': [" <> rest)) (
          contains-append_left part h.family ("': [" <> rest)
            (contains-append_left part "': [" rest i)) in
      elim (Bool-cases (contains part h.family)) [
        | inl here ↦
            contains-append_left part "{'" (h.family <> ("': [" <> rest))
              (contains-append_right part h.family ("': [" <> rest) here)
        | inr below ↦ elim (Bool-cases (in_a_family part c)) [
          | inl at ↦ inner (
              contains-append_right part (repr_structure c) (repr_rest cs <> "]}")
                (repr_structure_lem part c at))
          | inr after ↦ inner (
              contains-append_left part (repr_structure c) (repr_rest cs <> "]}") (
                contains-append_right part (repr_rest cs) "]}"
                  (repr_rest_lem part cs (ground (arith, e, below, after)))))
        ]
      ]

  repr_rest_lem :
      (part : String) (cs : Children)
      → in_a_child part cs ≡ true
      → contains part (repr_rest cs) ≡ true
  repr_rest_lem part no_child e = absurd (cc e)
  repr_rest_lem part (child c cs) e = elim (Bool-cases (in_a_family part c)) [
    | inl at ↦ contains-append_left part ", " (repr_structure c <> repr_rest cs) (
        contains-append_right part (repr_structure c) (repr_rest cs) (repr_structure_lem part c at))
    | inr after ↦ contains-append_left part ", " (repr_structure c <> repr_rest cs) (
        contains-append_left part (repr_structure c) (repr_rest cs)
          (repr_rest_lem part cs (ground (arith, e, after))))
  ]

str_structure_lem :
    (part : String) (info : ResourceInfo)
    → in_a_family part info ≡ true
    → contains part (str_structure info) ≡ true
unfolding in_a_family str_structure
str_structure_lem part (resource_info h no_child) e = ground (arith, e)
str_structure_lem part (resource_info h (child c cs)) e =
    repr_structure_lem part (resource_info h (child c cs)) e

-- If the details of the resource come, and the wanted text stands in the name of the family of some
-- resource of the tree, as the whole name or only within it, then the test of the structure passes:
-- for `CS_Port` a port channel is enough.
pub check_structure-passes :
    (api : Api) (family : String) (info : ResourceInfo) (s : State)
    → (get_details api s).0 ≡ ok info
    → in_a_family family info ≡ true
    → (check_structure api family s).0 ≡ ok tt
unfolding check_structure
check_structure-passes api family info s h e = ground (arith, str_structure_lem family info e)
