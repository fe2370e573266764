-- ===== src/TestCases/VmConnections/Unnamed.antt =====
-- A blueprint that names no ports.
use cloudshell_shell_automat.Base.{String, Bool, ◌≡◌, ◌∙◌, ap, refl, some, [], ◌∷◌, split, arith}
use cloudshell_shell_automat.Base.Dict.{Dict, lookup}
use cloudshell_shell_automat.Errors.{other}
use cloudshell_shell_automat.Exec.{err}
use cloudshell_shell_automat.TestCases.VmConnections.{
  Connections, AppNetworkInfo, connections_of, requested_ports, parse_connections, connect_all,
  connect, zip_longest, find_port, check_pair, check_targets, check_connections,
  test_correct_port_group,
}

-- The connector of a blueprint that names no ports makes one connection.
connections_of_unnamed :
    (source target : String)
    → connections_of (record { source = source; target = target; attributes = [] })
      ≡ ((source, "any"), (target, "any") ∷ []) ∷ []
unfolding connections_of requested_ports parse_connections connect_all connect zip_longest split
connections_of_unnamed source target = refl

abbrev unnamed : String → String → Connections
unnamed source target = ((source, "any"), (target, "any") ∷ []) ∷ []

check_unnamed :
    (matches : String → String → Bool) (source target : String) (apps : Dict AppNetworkInfo)
    (a b : AppNetworkInfo)
    → lookup source apps ≡ some a
    → lookup target apps ≡ some b
    → check_connections matches (unnamed source target) apps (unnamed source target)
      ≡ err (other "TypeError")
unfolding check_connections check_targets check_pair find_port
check_unnamed matches source target apps a b h k = ground (arith, h, k)

-- If the connector of a blueprint has no attributes, and both of its apps are there, then the test of
-- the port groups raises a `TypeError`, whatever the ports are.
pub test_correct_port_group_unnamed :
    (matches : String → String → Bool) (source target : String) (apps : Dict AppNetworkInfo)
    (a b : AppNetworkInfo)
    → lookup source apps ≡ some a
    → lookup target apps ≡ some b
    → test_correct_port_group matches
        (record { source = source; target = target; attributes = [] })
        apps
      ≡ err (other "TypeError")
unfolding test_correct_port_group
test_correct_port_group_unnamed matches source target apps a b h k =
    ap (λ c. check_connections matches c apps c) (connections_of_unnamed source target)
    ∙ check_unnamed matches source target apps a b h k
