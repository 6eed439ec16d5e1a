-- ===== src/Vendors/Aruba/Generate.antt =====
-- vendors/aruba.rs: the functions that generate commands, and the preview for a difference.
use switch_configurator.Prelude.{
  ℕ, Bool, true, false, not, Option, none, some, List, [], ◌∷◌, ◌++◌, Text, text_eq, nat_eq, ◌==◌,
  ◌!=◌, if◌then◌else◌, is_some, filter, find, map, contains, unwrap_or,
}
use switch_configurator.Prelude.Str.{split}
use switch_configurator.Prelude.HashMap.{HashMap, get, insert}
use switch_configurator.Models.Hardware.{SwitchModel, supports_poe, uses_legacy_mirror_syntax}
use switch_configurator.Models.Hardware.Ports.{PortCapabilities, port_capabilities}
use switch_configurator.Models.Network.{
  Vlan, VlanIpConfig, unset, dhcp, static, Port, PortMode, access, trunk, inferred_mode, PortMirror,
  MirrorDirection,
}
use switch_configurator.Models.Snmp.{
  SnmpConfig, SnmpCommunity, SnmpTrapReceiver, TrapType, trap_type_eq,
}
use switch_configurator.Models.State.{SwitchState}
use switch_configurator.Vendors.Aruba.{
  Command, configure_terminal, exit, enable, disable, vlan, no_vlan, untagged_vlan, no_tagged_vlan,
  tagged_vlan, vlan_name, port_name, interface, ip_dhcp, no_ip, no_name, ip_static, power,
  poe_by_class, no_power, mac_learned, mac_removed, no_mac_learned, no_mac_removed, speed_duplex,
  monitor, monitor_all, mirror_port, no_mirror, mirror, traps, no_traps, no_public, no_private,
  community, host,
}

-- each element's commands, one after the other
unfoldable pub each {ℓ} : {A : Type ℓ} → (A → List Command) → List A → List Command
each f [] = []
each f (x ∷ xs) = f x ++ each f xs

-- in configuration mode
abbrev pub configuring : List Command → List Command
configuring commands = configure_terminal ∷ (commands ++ exit ∷ [])

abbrev last_of : Text → List Text → Text
last_of s [] = s
last_of s (t ∷ ts) = last_of t ts

-- the part behind the last slash
unfoldable pub normalize_port_id : Text → Text
normalize_port_id port_id = last_of port_id (split b'/' port_id)

abbrev pub ip_command : VlanIpConfig → Command
ip_command dhcp = ip_dhcp
ip_command (static address netmask) = ip_static address netmask
ip_command unset = no_ip

abbrev pub vlan_block : Vlan → List Command
vlan_block v = vlan v.id ∷ vlan_name v.name ∷ ip_command v.ip_config ∷ exit ∷ []

unfoldable pub generate_vlan_commands : List Vlan → List Command
unfolding each
generate_vlan_commands vlans = configuring (each vlan_block vlans)

-- the sessions that a port is a source of
abbrev pub Sessions : Type 0
Sessions = HashMap Text (List (Text × MirrorDirection))

unfoldable pub add_sources : PortMirror → List Text → Sessions → Sessions
unfolding normalize_port_id
add_sources m [] sessions = sessions
add_sources m (port ∷ ports) sessions =
    let id = normalize_port_id port in
    add_sources m ports
      (insert id (unwrap_or (get id sessions) [] ++ (m.session_id, m.direction) ∷ []) sessions)

unfoldable pub mirror_sources : Sessions → List PortMirror → Sessions
unfolding add_sources
mirror_sources sessions [] = sessions
mirror_sources sessions (m ∷ ms) = mirror_sources (add_sources m m.source_ports sessions) ms

abbrev pub not_native : Port → List ℕ
not_native port = filter (λ v. v != port.vlan) port.tagged_vlans

abbrev pub tagged_unless_empty : List ℕ → List Command
tagged_unless_empty [] = []
tagged_unless_empty (v ∷ vs) = tagged_vlan (v ∷ vs) ∷ []

abbrev pub name_commands : Option Text → Option Port → List Command
name_commands (some text) current = port_name text ∷ []
name_commands none none = []
name_commands none (some port) = if is_some port.description then no_name ∷ [] else []

-- what goes, for the port as it is
abbrev pub untag_commands : PortMode → Port → Option Port → List Command
untag_commands mode port none = []
untag_commands access port (some current) = map no_tagged_vlan (not_native current)
untag_commands trunk port (some current) =
    map no_tagged_vlan (filter (λ v. not (contains (not_native port) v)) (not_native current))

abbrev pub tag_commands : PortMode → Port → List Command
tag_commands access port = []
tag_commands trunk port = tagged_unless_empty (not_native port)

abbrev pub membership_commands : Port → Option Port → List Command
membership_commands port current =
    untagged_vlan port.vlan
    ∷ (untag_commands (inferred_mode port) port current ++ tag_commands (inferred_mode port) port)

abbrev pub poe_for : Option PortCapabilities → List Command
poe_for none = no_power ∷ []
poe_for (some caps) = if is_some caps.poe_support then power ∷ poe_by_class ∷ [] else no_power ∷ []

abbrev pub poe_commands : SwitchModel → Port → List Command
poe_commands model port =
    if supports_poe model
    then (if port.poe_enabled
        then poe_for (port_capabilities model port.port_id)
        else no_power ∷ [])
    else []

abbrev pub mac_commands : Bool → List Command
mac_commands true = mac_learned ∷ mac_removed ∷ []
mac_commands false = no_mac_learned ∷ no_mac_removed ∷ []

abbrev pub monitor_command : Text × MirrorDirection → List Command
monitor_command (session, direction) = monitor_all direction session ∷ []

-- the legacy syntax has one session only
abbrev pub monitor_commands : SwitchModel → List (Text × MirrorDirection) → List Command
monitor_commands model [] = []
monitor_commands model (s ∷ ss) =
    if uses_legacy_mirror_syntax model then monitor ∷ [] else each monitor_command (s ∷ ss)

-- A driver knows the switch's model, and the state that it read last.
module _ (model : SwitchModel) (current_state : Option SwitchState) where
  abbrev pub current_port : Text → Option Port
  current_port port_id = elim current_state [
    | none ↦ none
    | some state ↦ find (λ p. p.port_id == port_id) state.ports
  ]

  unfoldable pub port_settings : Sessions → Port → List Command
  unfolding each
  port_settings sessions port =
      name_commands port.description (current_port port.port_id)
      ++ membership_commands port (current_port port.port_id)
      ++ (if port.enabled then enable else disable) ∷ []
      ++ poe_commands model port
      ++ mac_commands port.mac_notify
      ++ speed_duplex port.speed_duplex ∷ []
      ++ monitor_commands model (unwrap_or (get (normalize_port_id port.port_id) sessions) [])

  abbrev pub port_block : Sessions → Port → List Command
  port_block sessions port =
      interface (normalize_port_id port.port_id) ∷ (port_settings sessions port ++ exit ∷ [])

  unfoldable pub generate_port_commands : List Port → List PortMirror → List Command
  unfolding each mirror_sources port_settings
  generate_port_commands ports mirrors =
      configuring (each (port_block (mirror_sources [] mirrors)) ports)

module _ (model : SwitchModel) where
  abbrev pub mirror_command : PortMirror → List Command
  mirror_command m =
      if uses_legacy_mirror_syntax model
      then mirror_port (normalize_port_id m.destination_port) ∷ []
      else mirror m.session_id (normalize_port_id m.destination_port) ∷ []

  unfoldable pub generate_mirror_commands : List PortMirror → List Command
  unfolding each normalize_port_id
  generate_mirror_commands mirrors = configuring (each mirror_command mirrors)

abbrev pub community_command : SnmpCommunity → Command
community_command c = community c.name c.access

abbrev pub host_command : SnmpTrapReceiver → Command
host_command r = host r.host r.community

unfoldable pub generate_snmp_commands : SnmpConfig → List TrapType → List Command
generate_snmp_commands snmp current_traps = configuring (
    map no_traps (filter (λ t. not (contains snmp.enabled_traps t)) current_traps)
    ++ no_public ∷ no_private ∷ []
    ++ map community_command snmp.communities
    ++ map host_command snmp.trap_receivers
    ++ map traps snmp.enabled_traps)

unfoldable pub poe_disable_commands : Text → List Command
unfolding normalize_port_id
poe_disable_commands port_id =
    configure_terminal ∷ interface (normalize_port_id port_id) ∷ no_power ∷ exit ∷ exit ∷ []

unfoldable pub poe_enable_commands : Text → List Command
unfolding normalize_port_id
poe_enable_commands port_id =
    configure_terminal ∷ interface (normalize_port_id port_id) ∷ power ∷ exit ∷ exit ∷ []

unfoldable pub generate_remove_vlan_commands : List ℕ → List Command
generate_remove_vlan_commands ids = configuring (map no_vlan ids)

unfoldable pub generate_remove_mirror_commands : List Text → List Command
generate_remove_mirror_commands ids = configuring (map no_mirror ids)
