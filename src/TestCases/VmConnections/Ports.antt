-- ===== src/TestCases/VmConnections/Ports.antt =====
-- automation_tests/test_vm_connections.py: the ports of an app, by CloudShell and by vCenter.
use cloudshell_shell_automat.Base.{
  String, ◌<>◌, ◌==◌, ◌≡◌, sym, ◌∙◌, eq_iff, inl, inr, Bool, true, false, Bool-cases, ◌&&◌, Option,
  none, some, List, [], ◌∷◌, if◌then◌else◌, arith,
}
use mathlib.Core.Path.{subst}
use cloudshell_shell_automat.Base.Dict.{Dict, lookup, insert, update, lookup-insert}
use cloudshell_shell_automat.Errors.{base_automation, assertion_error, other}
use cloudshell_shell_automat.Exec.{Result, Result-cases, ok, err}
use cloudshell_shell_automat.TestCases.VmConnections.{PortInfo, and_then}

-- The parts of a machine of vCenter that are read. A device without a port has no backing that
-- names a group of ports, and some networks have no key.
pub record Device : Type 0 where
  pub label : String
  pub portgroup_key : Option String
  pub mac_address : String

pub record Network : Type 0 where
  pub key : Option String
  pub name : String

pub record Machine : Type 0 where
  pub devices : List Device
  pub networks : List Network

unfoldable pub find_device : String → List Device → Option Device
find_device label [] = none
find_device label (d ∷ ds) = if d.label == label then some d else find_device label ds

-- `getattr(network, "key", "") == port_group_key`
unfoldable pub has_key : String → Option String → Bool
has_key key none = "" == key
has_key key (some k) = k == key

unfoldable pub find_network : String → List Network → Option Network
unfolding has_key
find_network key [] = none
find_network key (n ∷ ns) = if has_key key n.key then some n else find_network key ns

abbrev device_or_error : String → Option Device → Result Device
device_or_error label none =
    err (base_automation ("Cannot find adapter " <> label <> " on vCenter"))
device_or_error label (some d) = ok d

abbrev group_or_error : Option String → Result String
group_or_error none = err (other "no attribute 'port'")
group_or_error (some key) = ok key

abbrev network_or_error : String → Option Network → Result Network
network_or_error key none =
    err (base_automation ("Cannot find network on the vCenter by portgroupKey \"" <> key <> "\""))
network_or_error key (some n) = ok n

-- `vm.config`, where no machine has the UUID
abbrev machine_or_error : Option Machine → Result Machine
machine_or_error none = err (other "'NoneType' object has no attribute 'config'")
machine_or_error (some vm) = ok vm

-- `_get_port_info_from_vcenter`, by the machine that the vCenter handler finds
unfoldable pub get_port_info_from_vcenter : Option Machine → String → Result PortInfo
unfolding find_device find_network
get_port_info_from_vcenter found adapter_name = and_then (machine_or_error found) λ vm.
    and_then (device_or_error adapter_name (find_device adapter_name vm.devices)) λ device.
      and_then (group_or_error device.portgroup_key) λ key.
        and_then (network_or_error key (find_network key vm.networks)) λ network. ok (record {
          mac = device.mac_address;
          adapter_name = adapter_name;
          port_group_name = network.name;
        })

-- `PortInfo.__eq__`
unfoldable pub same_port : PortInfo → PortInfo → Bool
same_port p q =
    p.mac == q.mac && p.adapter_name == q.adapter_name && p.port_group_name == q.port_group_name

module _ (show : Dict String → String) where
  abbrev needed : Dict String → Option String → Option String → Option String → Result PortInfo
  needed attrs (some mac) (some adapter) (some group) =
      ok (record { mac = mac; adapter_name = adapter; port_group_name = group })
  needed attrs mac adapter group = err (
      base_automation (
        "Cannot get all needed information about port from cs. "
        <> "We need: \"mac address\", \"network adapter\", \"port group name\". "
        <> "We have: "
        <> show attrs))

  -- `_get_port_info_from_vm_details_network_data`
  unfoldable pub get_port_info_from_cs : List (String × String) → Result PortInfo
  unfolding update lookup
  get_port_info_from_cs items =
      let attrs = update [] items in
      needed attrs (lookup "mac address" attrs) (lookup "network adapter" attrs)
        (lookup "port group name" attrs)

  abbrev equal_or_fail : Bool → Result (Unit {0})
  equal_or_fail true = ok tt
  equal_or_fail false =
      err (
        assertion_error "Information about the port from CloudShell and from vCenter is different.")

  -- The loop of `test_vm_connections` over the network data of an app.
  unfoldable pub collect_ports :
      Option Machine → List (List (String × String)) → Dict PortInfo → Result (Dict PortInfo)
  unfolding get_port_info_from_cs get_port_info_from_vcenter same_port insert
  collect_ports vm [] ports = ok ports
  collect_ports vm (items ∷ network_data) ports = and_then (get_port_info_from_cs items) λ cs_port.
      and_then (get_port_info_from_vcenter vm cs_port.adapter_name) λ vm_port.
        and_then (equal_or_fail (same_port cs_port vm_port))
          λ _. collect_ports vm network_data (insert vm_port.adapter_name vm_port ports)

  -- Each port is kept under the name of its adapter, and is the one that vCenter tells.
  abbrev pub OfMachine : Option Machine → Dict PortInfo → Type 0
  OfMachine vm ports =
      (name : String) (port : PortInfo)
      → lookup name ports ≡ some port
      → get_port_info_from_vcenter vm name ≡ ok port

  port-adapter :
      (vm : Option Machine) (name : String) (port : PortInfo)
      → get_port_info_from_vcenter vm name ≡ ok port
      → port.adapter_name ≡ name
  unfolding get_port_info_from_vcenter
  port-adapter vm name port e = ground (arith, e)

  insert-OfMachine :
      (vm : Option Machine) (name : String) (port : PortInfo) (ports : Dict PortInfo)
      → get_port_info_from_vcenter vm name ≡ ok port
      → OfMachine vm ports
      → OfMachine vm (insert port.adapter_name port ports)
  insert-OfMachine vm name port ports e of_machine name' port' there =
      let same = port-adapter vm name port e in
      let found = lookup-insert port.adapter_name name' port ports in
      elim (Bool-cases (port.adapter_name == name')) [
        | inl eq ↦
            let named : name ≡ name' = sym same ∙ (eq_iff port.adapter_name name').0 eq in
            let kept : port ≡ port' = ground (arith, eq, found, there) in
            subst (λ n. get_port_info_from_vcenter vm n ≡ ok port') named
              (subst (λ p. get_port_info_from_vcenter vm name ≡ ok p) kept e)
        | inr ne ↦ of_machine name' port' (ground (arith, ne, found, there))
      ]

  -- If the ports of an app are collected, each is kept under the name of its adapter, and it is what
  -- vCenter tells of this adapter.
  pub collect_ports-OfMachine :
      (vm : Option Machine) (network_data : List (List (String × String)))
      (ports ports' : Dict PortInfo)
      → OfMachine vm ports
      → collect_ports vm network_data ports ≡ ok ports'
      → OfMachine vm ports'
  unfolding collect_ports
  collect_ports-OfMachine vm [] ports ports' of_machine e =
      subst (OfMachine vm) (ground (arith, e)) of_machine
  collect_ports-OfMachine vm (items ∷ network_data) ports ports' of_machine e =
      elim (Result-cases (get_port_info_from_cs items)) [
        | inr (x, bad) ↦ absurd (ground (arith, bad, e))
        | inl (p, told) ↦ (elim (Result-cases (get_port_info_from_vcenter vm p.adapter_name)) [
          | inr (x, bad) ↦ absurd (ground (arith, told, bad, e))
          | inl (q, seen) ↦ (elim (Bool-cases (same_port p q)) [
            | inr differ ↦ absurd (ground (arith, told, seen, differ, e))
            | inl equal ↦
                collect_ports-OfMachine vm network_data (insert q.adapter_name q ports) ports'
                  (insert-OfMachine vm p.adapter_name q ports seen of_machine)
                  (ground (arith, told, seen, equal, e))
          ])
        ])
      ]
