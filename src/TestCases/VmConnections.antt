-- ===== src/TestCases/VmConnections.antt =====
-- shell_tests/helpers/vm_helpers.py, and automation_tests/test_vm_connections.py: here what follows
-- the collection of the apps' ports. The search of a regular expression is a parameter.
pub mod Unnamed
pub mod Ports
pub mod Grouping
use cloudshell_shell_automat.Base.{
  String, ℕ, ◌<>◌, ◌==◌, Bool, true, false, ◌&&◌, Option, none, some, List, [], ◌∷◌, ◌++◌, any,
  length, split, map, elem, ◌=?◌, if◌then◌else◌,
}
use cloudshell_shell_automat.Base.Dict.{Dict, lookup}
use cloudshell_shell_automat.Errors.{Exc, key_error, assertion_error, other}
use cloudshell_shell_automat.Exec.{Result, ok, err}

-- A resource and a port.
abbrev pub End : Type 0
End = String × String

abbrev pub Connections : Type 0
Connections = List (End × List End)

-- `itertools.zip_longest(..., fillvalue="any")`
unfoldable pub zip_longest : List String → List String → List (String × String)
zip_longest [] [] = []
zip_longest [] (t ∷ ts) = ("any", t) ∷ zip_longest [] ts
zip_longest (s ∷ ss) [] = (s, "any") ∷ zip_longest ss []
zip_longest (s ∷ ss) (t ∷ ts) = (s, t) ∷ zip_longest ss ts

abbrev pub same_end : End → End → Bool
same_end (a, b) (c, d) = a == c && b == d

-- `connections[source].append(target)` of a `defaultdict(list)`
unfoldable pub connect : End → End → Connections → Connections
connect source target [] = (source, target ∷ []) ∷ []
connect source target ((s, targets) ∷ rest) =
    let later = connect source target rest in
    if same_end s source then (s, targets ++ (target ∷ [])) ∷ rest else (s, targets) ∷ later

unfoldable pub connect_all : String → String → List (String × String) → Connections → Connections
unfolding connect
connect_all source target [] connections = connections
connect_all source target ((s, t) ∷ ports) connections =
    connect_all source target ports (connect (source, s) (target, t) connections)

unfoldable pub parse_connections : String → String → String → String → Connections
unfolding connect_all zip_longest split
parse_connections source_name source_ports target_name target_ports =
    connect_all source_name target_name
      (zip_longest (split b',' source_ports) (split b',' target_ports)) []

-- The connector of the blueprint, with its attributes, if it has any.
pub record Connector : Type 0 where
  pub source : String
  pub target : String
  pub attributes : List (String × String)

-- The loop over the attributes, which keeps the ports of the source and of the target.
unfoldable pub requested_ports : List (String × String) → String × String → String × String
requested_ports [] ports = ports
requested_ports ((name, value) ∷ attributes) (source_ports, target_ports) =
    if name == "Requested Target vNIC Name"
    then requested_ports attributes (source_ports, value)
    else if name == "Requested Source vNIC Name"
    then requested_ports attributes (value, target_ports)
    else requested_ports attributes (source_ports, target_ports)

-- `parse_connections(*get_str_connections_form_blueprint(...))`
unfoldable pub connections_of : Connector → Connections
unfolding requested_ports parse_connections
connections_of c =
    let (source_ports, target_ports) = requested_ports c.attributes ("any", "any") in
    parse_connections c.source source_ports c.target target_ports

pub record PortInfo : Type 0 where
  pub mac : String
  pub adapter_name : String
  pub port_group_name : String

-- `AppNetworkInfo`, as far as it is read
pub record AppNetworkInfo : Type 0 where
  pub blueprint_name : String
  pub ports : Dict PortInfo

abbrev asserted : Bool → Result (Unit {0})
asserted true = ok tt
asserted false = err (assertion_error "")

abbrev groups : Dict PortInfo → List String
groups = map (λ (p : String × PortInfo). p.1.port_group_name)

-- `_test_connection_with_one_specified_port`
abbrev one_specified : PortInfo → AppNetworkInfo → Result (Unit {0})
one_specified port other_app = asserted (elem port.port_group_name (groups other_app.ports))

-- Where no port is named on either side. A view of a dict's values has no items by number, so the
-- line behind the first assertion raises.
abbrev none_specified : Connections → Result (Unit {0})
none_specified connections =
    if length connections =? 1 then err (other "TypeError") else err (assertion_error "")

abbrev compare_ports :
    Connections
    → AppNetworkInfo
    → AppNetworkInfo
    → Option PortInfo
    → Option PortInfo
    → Result (Unit {0})
compare_ports connections source target (some p) (some q) =
    asserted (p.port_group_name == q.port_group_name)
compare_ports connections source target none none = none_specified connections
compare_ports connections source target (some p) none = one_specified p target
compare_ports connections source target none (some q) = one_specified q source

abbrev and_then : {A : Type 0} {B : Type 0} → Result A → (A → Result B) → Result B
and_then (ok a) f = f a
and_then (err e) f = err e

abbrev app_named : String → Option AppNetworkInfo → Result AppNetworkInfo
app_named name none = err (key_error name)
app_named name (some app) = ok app

-- `re.compile(rf"\W{conn_name}$").search(port_name)`
module _ (matches : String → String → Bool) where
  unfoldable pub find_in_ports : String → Dict PortInfo → Result (Option PortInfo)
  find_in_ports conn_name [] = err (assertion_error "Cannot find the port")
  find_in_ports conn_name ((port_name, port) ∷ ports) =
      if matches conn_name port_name then ok (some port) else find_in_ports conn_name ports

  -- `_find_port_in_app_info_with_conn_name`
  unfoldable pub find_port : AppNetworkInfo → String → Result (Option PortInfo)
  unfolding find_in_ports
  find_port app conn_name =
      if conn_name == "any" then ok none else find_in_ports conn_name app.ports

  module _ (connections : Connections) (apps : Dict AppNetworkInfo) where
    unfoldable pub check_pair : End → End → Result (Unit {0})
    unfolding find_port lookup
    check_pair (source_name, source_conn) (target_name, target_conn) =
        and_then (app_named source_name (lookup source_name apps)) λ source.
          and_then (app_named target_name (lookup target_name apps)) λ target.
            and_then (find_port source source_conn) λ p.
              and_then (find_port target target_conn)
                λ q. compare_ports connections source target p q

    unfoldable pub check_targets : End → List End → Result (Unit {0})
    unfolding check_pair
    check_targets source [] = ok tt
    check_targets source (t ∷ ts) = and_then (check_pair source t) λ _. check_targets source ts

    unfoldable pub check_connections : Connections → Result (Unit {0})
    unfolding check_targets
    check_connections [] = ok tt
    check_connections ((source, targets) ∷ rest) =
        and_then (check_targets source targets) λ _. check_connections rest

  -- `_test_correct_port_group_from_blueprint`
  unfoldable pub test_correct_port_group : Connector → Dict AppNetworkInfo → Result (Unit {0})
  unfolding connections_of check_connections
  test_correct_port_group connector apps =
      check_connections (connections_of connector) apps (connections_of connector)
