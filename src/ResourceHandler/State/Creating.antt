-- ===== src/ResourceHandler/State/Creating.antt =====
-- What `ResourceHandler.create` and `set_attributes` leave in the handler.
use cloudshell_shell_automat.Base.{String, ◌≡◌, arith, or_else}
use cloudshell_shell_automat.Base.Dict.{Dict, lookup, HasUniqueKeys, lookup-update_unique}
use cloudshell_shell_automat.Exec.{ok, err}
use cloudshell_shell_automat.Api.{Api}
use cloudshell_shell_automat.CsHandler
use cloudshell_shell_automat.ResourceHandler.State.{State, namespace_of, set_attributes}

-- For attributes of which none is given twice: `set_attributes` asks the server to set the
-- attributes under the namespace. If the server accepts, each attribute has its new value, or its
-- old one where none is given; if the server refuses, the attributes are as before.
pub set_attributes_lem :
    (api : Api) (attributes : Dict String) (s : State) (key : String)
    → HasUniqueKeys attributes
    → let (r, s') = set_attributes api attributes s in
      let call =
        CsHandler.set_resource_attributes api s.self.name (namespace_of s.self) attributes in
      (r ≡ (call s.calls).0)
      × (s'.calls ≡ (call s.calls).1)
      × (lookup key s'.self.attributes ≡ (elim r [
        | ok u ↦ or_else (lookup key attributes) (lookup key s.self.attributes)
        | err e ↦ lookup key s.self.attributes
      ]))
unfolding set_attributes
set_attributes_lem api attributes s key h =
    ground (arith, lookup-update_unique key s.self.attributes attributes h)
