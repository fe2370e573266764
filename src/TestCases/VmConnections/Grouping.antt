-- ===== src/TestCases/VmConnections/Grouping.antt =====
-- How the pairs of ports are grouped by the port of the source.
use cloudshell_shell_automat.Base.{String, ◌==◌, List, [], ◌∷◌, if◌then◌else◌}
use cloudshell_shell_automat.TestCases.VmConnections.{End, Connections, same_end}

-- `connections[source]`, which is empty where there is none.
unfoldable pub targets_of : End → Connections → List End
targets_of source [] = []
targets_of source ((s, targets) ∷ rest) =
    if same_end s source then targets else targets_of source rest

-- The ports of the target that stand behind a port of the source, in their order.
unfoldable pub partners : String → String → List (String × String) → List End
partners target port [] = []
partners target port ((s, t) ∷ ports) =
    if s == port then (target, t) ∷ partners target port ports else partners target port ports
