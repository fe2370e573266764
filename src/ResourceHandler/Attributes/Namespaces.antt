-- ===== src/ResourceHandler/Attributes/Namespaces.antt =====
-- Under which namespace a child's attribute is set.
use cloudshell_shell_automat.Base.{
  String, ◌≡◌, false, Option, none, some, [], ◌∷◌, ◌++◌, ◌==◌, eq_iff, break_last, arith,
}
use cloudshell_shell_automat.Base.Dict.{Dict}
use cloudshell_shell_automat.Exec.{ok}
use cloudshell_shell_automat.ResourceHandler.Attributes.{find_namespace}

-- The name has a dot, and is not the one that is looked for behind it.
abbrev IsOther : String → Option (String × String) → Type 0
IsOther wanted none = ⊥
IsOther wanted (some (p, name)) = (name == wanted) ≡ false

abbrev pub Others : String → Dict String → Type 0
Others wanted [] = Unit
Others wanted ((full, v) ∷ rest) = IsOther wanted (break_last b'.' full) × Others wanted rest

abbrev prefix_of : Option (String × String) → String
prefix_of none = ""
prefix_of (some (p, name)) = p

-- If the wanted name stands behind the last dot of an attribute of the child, and all attributes in
-- front of it have a dot and another name behind it, then the namespace of that attribute is used.
pub find_namespace-found :
    (wanted full value prefix default : String) (before after : Dict String)
    → Others wanted before
    → break_last b'.' full ≡ some (prefix, wanted)
    → find_namespace wanted default (before ++ ((full, value) ∷ after)) ≡ ok prefix
unfolding find_namespace
find_namespace-found wanted full value prefix default [] after h e =
    ground (arith, eq_iff wanted wanted)
find_namespace-found wanted full value prefix default ((f, v) ∷ before) after h e = ground (
  arith,
  find_namespace-found wanted full value prefix (prefix_of (break_last b'.' f)) before after,
)

-- If all attributes of the child have a dot, and none has the wanted name behind it, then the
-- namespace of the last attribute is used, not the child's model; without attributes it is the
-- model.
pub find_namespace-missing :
    (wanted full value prefix name default : String) (before : Dict String)
    → Others wanted (before ++ ((full, value) ∷ []))
    → break_last b'.' full ≡ some (prefix, name)
    → (find_namespace wanted default (before ++ ((full, value) ∷ [])) ≡ ok prefix)
      × (find_namespace wanted default [] ≡ ok default)
unfolding find_namespace
find_namespace-missing wanted full value prefix name default [] h e = ground arith
find_namespace-missing wanted full value prefix name default ((f, v) ∷ before) h e = ground (
  arith,
  find_namespace-missing wanted full value prefix name (prefix_of (break_last b'.' f)) before,
)
