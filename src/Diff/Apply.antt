-- ===== src/Diff/Apply.antt =====
-- What the difference asks of a switch: a switch that carries it out to the letter. This is not
-- code of the program; it is the specification that `compute_diff` is measured by.
use switch_configurator.Prelude.{
  true, false, Option, none, some, List, [], ◌++◌, Text, map, nat_eq, text_eq, if◌then◌else◌,
}
use switch_configurator.Models.Hardware.{auto}
use switch_configurator.Models.Network.{Vlan, Port, PortMirror, access}
use switch_configurator.Models.Snmp.{SnmpConfig, trap_type_eq}
use switch_configurator.Models.State.{SwitchState, StateDiff, SnmpStateDiff}
use switch_configurator.Diff.Keyed.Settled.{carry_out}
use switch_configurator.Diff.Vlans.{vlan_key}
use switch_configurator.Diff.Ports.{port_key}
use switch_configurator.Diff.Mirrors.{mirror_key}
use switch_configurator.Diff.Snmp.{community_key, receiver_key, trap_key}

-- a port that was reset: disabled, in VLAN 1, nothing else set
abbrev pub default_port : Text → Port
default_port k = record {
  port_id = k;
  mode = access;
  vlan = 1;
  tagged_vlans = [];
  description = none;
  enabled = false;
  poe_enabled = false;
  mac_notify = false;
  speed_duplex = auto;
  vlan_name = none;
  tagged_vlan_refs = [];
}

-- a mirror's destination: as after a reset, but enabled
abbrev pub baseline_port : Text → Port
baseline_port k = record (default_port k) { enabled = true }

abbrev pub apply_vlans : StateDiff → List Vlan → List Vlan
apply_vlans d = carry_out vlan_key d.vlans_to_remove d.vlans_to_update d.vlans_to_add

abbrev pub apply_ports : StateDiff → List Port → List Port
apply_ports d =
    carry_out port_key []
      (map default_port d.ports_to_reset
        ++ (map baseline_port d.mirror_dest_ports_to_configure ++ d.ports_to_configure))
      []

abbrev pub apply_mirrors : StateDiff → List PortMirror → List PortMirror
apply_mirrors d = carry_out mirror_key d.mirrors_to_remove d.mirrors_to_update d.mirrors_to_add

abbrev pub no_snmp : SnmpConfig
no_snmp = record { communities = []; trap_receivers = []; enabled_traps = []; reads = none }

abbrev pub snmp_or_none : Option SnmpConfig → SnmpConfig
snmp_or_none none = no_snmp
snmp_or_none (some c) = c

abbrev pub apply_snmp : Option SnmpStateDiff → Option SnmpConfig → Option SnmpConfig
apply_snmp none current = current
apply_snmp (some d) current =
    let c = snmp_or_none current in
    some (record c {
      communities =
          carry_out community_key d.communities_to_remove d.communities_to_update
            d.communities_to_add c.communities;
      trap_receivers =
          carry_out receiver_key d.trap_receivers_to_remove [] d.trap_receivers_to_add
            c.trap_receivers;
      enabled_traps = carry_out trap_key d.traps_to_disable [] d.traps_to_enable c.enabled_traps;
    })

unfoldable pub apply_diff : StateDiff → SwitchState → SwitchState
unfolding carry_out
apply_diff d s = record s {
  vlans = apply_vlans d s.vlans;
  ports = apply_ports d s.ports;
  port_mirrors = apply_mirrors d s.port_mirrors;
  snmp = apply_snmp d.snmp_diff s.snmp;
  management_vlan = if d.management_vlan_changed then d.management_vlan else s.management_vlan;
}
