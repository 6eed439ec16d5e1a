-- ===== src/Vendors/Aruba.antt =====
-- vendors/aruba.rs: the commands that the driver generates. A command is kept apart from the line that is
-- sent for it, which is `line_of`.
pub mod Generate
pub mod Preview
pub mod Apply
pub mod Levels
pub mod Blocks
pub mod Nested
pub mod Applied
pub mod Traps
pub mod Cleared
pub mod Tags
use switch_configurator.Prelude.{
  ℕ, Bool, true, false, List, [], ◌∷◌, ◌++◌, Text, codes, if◌then◌else◌, contains, nat_eq,
}
use switch_configurator.Prelude.Decimal.{to_string}
use switch_configurator.Models.Hardware.{SpeedDuplex, to_aruba_syntax}
use switch_configurator.Models.Network.{MirrorDirection, rx, tx, both}
use switch_configurator.Models.Snmp.{
  SnmpAccess, unrestricted, manager, operator, TrapType, mac_notify, link_change, all,
}

pub data Command : Type 0 where
  configure_terminal exit enable disable : Command
  vlan no_vlan untagged_vlan no_tagged_vlan : ℕ → Command
  tagged_vlan : List ℕ → Command
  vlan_name port_name interface : Text → Command
  ip_dhcp no_ip no_name : Command
  ip_static : Text → Text → Command
  power poe_by_class no_power : Command
  mac_learned mac_removed no_mac_learned no_mac_removed : Command
  speed_duplex : SpeedDuplex → Command
  monitor : Command
  monitor_all : MirrorDirection → Text → Command
  mirror_port no_mirror : Text → Command
  mirror : Text → Text → Command
  traps no_traps : TrapType → Command
  no_public no_private : Command
  community : Text → SnmpAccess → Command
  host : Text → Text → Command
  no_untagged_ports no_tagged_ports : List Text → Command
  no_community no_host : Text → Command
  no_link_traps no_management_vlan : Command
  management_vlan : ℕ → Command

-- `parts.join(",")`
unfoldable pub comma_list : List Text → Text
comma_list [] = []
comma_list (s ∷ []) = s
comma_list (s ∷ t ∷ ss) = s ++ b',' ∷ comma_list (t ∷ ss)

unfoldable pub numbers : List ℕ → List Text
numbers [] = []
numbers (n ∷ ns) = to_string n ∷ numbers ns

abbrev quoted : Text → Text
quoted s = codes "\"" ++ s ++ codes "\""

abbrev access_level : SnmpAccess → Text
access_level unrestricted = codes "unrestricted"
access_level manager = codes "manager"
access_level operator = codes "operator"

abbrev trap_name : TrapType → Text
trap_name mac_notify = codes "mac-notify"
trap_name link_change = codes "link-change all"
trap_name all = codes "all"

abbrev direction_word : MirrorDirection → Text
direction_word both = codes "both"
direction_word rx = codes "in"
direction_word tx = codes "out"

unfoldable pub line_of : Command → Text
unfolding comma_list numbers to_aruba_syntax contains
line_of configure_terminal = codes "configure terminal"
line_of exit = codes "exit"
line_of enable = codes "enable"
line_of disable = codes "disable"
line_of (vlan n) = codes "vlan " ++ to_string n
line_of (no_vlan n) = codes "no vlan " ++ to_string n
line_of (untagged_vlan n) = codes "untagged vlan " ++ to_string n
line_of (no_tagged_vlan n) = codes "no tagged vlan " ++ to_string n
line_of (tagged_vlan ns) = codes "tagged vlan " ++ comma_list (numbers ns)
line_of (vlan_name s) = codes "name " ++ (if contains s 32 then quoted s else s)
line_of (port_name s) = codes "name " ++ quoted s
line_of (interface s) = codes "interface " ++ s
line_of ip_dhcp = codes "ip address dhcp-bootp"
line_of no_ip = codes "no ip address"
line_of no_name = codes "no name"
line_of (ip_static address netmask) = codes "ip address " ++ address ++ codes " " ++ netmask
line_of power = codes "power-over-ethernet"
line_of poe_by_class = codes "poe-allocate-by class"
line_of no_power = codes "no power-over-ethernet"
line_of mac_learned = codes "mac-notify traps learned"
line_of mac_removed = codes "mac-notify traps removed"
line_of no_mac_learned = codes "no mac-notify traps learned"
line_of no_mac_removed = codes "no mac-notify traps removed"
line_of (speed_duplex s) = codes "speed-duplex " ++ to_aruba_syntax s
line_of monitor = codes "monitor"
line_of (monitor_all direction session) =
    codes "monitor all " ++ direction_word direction ++ codes " mirror " ++ session
line_of (mirror_port dest) = codes "mirror-port " ++ dest
line_of (no_mirror session) = codes "no mirror " ++ session
line_of (mirror session dest) = codes "mirror " ++ session ++ codes " port " ++ dest
line_of (traps t) = codes "snmp-server enable traps " ++ trap_name t
line_of (no_traps t) = codes "no snmp-server enable traps " ++ trap_name t
line_of no_public = codes "no snmp-server community \"public\""
line_of no_private = codes "no snmp-server community \"private\""
line_of (community s access) =
    codes "snmp-server community " ++ quoted s ++ codes " " ++ access_level access
line_of (host h s) = codes "snmp-server host " ++ h ++ codes " community " ++ quoted s
line_of (no_untagged_ports ports) = codes "no untagged " ++ comma_list ports
line_of (no_tagged_ports ports) = codes "no tagged " ++ comma_list ports
line_of (no_community s) = codes "no snmp-server community " ++ quoted s
line_of (no_host h) = codes "no snmp-server host " ++ h
line_of no_link_traps = codes "no snmp-server enable traps link-change"
line_of no_management_vlan = codes "no management-vlan"
line_of (management_vlan n) = codes "management-vlan " ++ to_string n
