-- ===== src/Models/State.antt =====
-- models.rs: the state that is read from a switch, and the difference to the wanted one.
use switch_configurator.Prelude.{
  ℕ, Bool, false, not, ◌||◌, Option, none, some, List, [], Text, is_empty,
}
use switch_configurator.Models.Network.{Vlan, Port, PortMirror}
use switch_configurator.Models.Snmp.{SnmpCommunity, SnmpTrapReceiver, TrapType, SnmpConfig}

pub record SwitchState : Type 0 where
  pub vlans : List Vlan
  pub ports : List Port
  pub port_mirrors : List PortMirror
  pub snmp : Option SnmpConfig
  pub management_vlan : Option ℕ
  pub warnings : List Text

pub record SnmpStateDiff : Type 0 where
  pub communities_to_add : List SnmpCommunity
  pub communities_to_remove : List Text
  pub communities_to_update : List SnmpCommunity
  pub trap_receivers_to_add : List SnmpTrapReceiver
  pub trap_receivers_to_remove : List Text
  pub traps_to_enable : List TrapType
  pub traps_to_disable : List TrapType

-- `SnmpStateDiff::has_changes`
unfoldable pub has_snmp_changes : SnmpStateDiff → Bool
has_snmp_changes d =
    not (is_empty d.communities_to_add)
    || not (is_empty d.communities_to_remove)
    || not (is_empty d.communities_to_update)
    || not (is_empty d.trap_receivers_to_add)
    || not (is_empty d.trap_receivers_to_remove)
    || not (is_empty d.traps_to_enable)
    || not (is_empty d.traps_to_disable)

pub record StateDiff : Type 0 where
  pub vlans_to_add : List Vlan
  pub vlans_to_remove : List ℕ
  pub vlans_to_update : List Vlan
  pub ports_to_configure : List Port
  pub ports_to_reset : List Text
  pub mirrors_to_add : List PortMirror
  pub mirrors_to_remove : List Text
  pub mirrors_to_update : List PortMirror
  pub mirror_dest_ports_to_configure : List Text
  pub snmp_config_changed : Bool
  pub snmp_config : Option SnmpConfig
  pub snmp_diff : Option SnmpStateDiff
  pub management_vlan_changed : Bool
  pub management_vlan : Option ℕ

-- `StateDiff::default()`
abbrev pub empty_diff : StateDiff
empty_diff = record {
  vlans_to_add = [];
  vlans_to_remove = [];
  vlans_to_update = [];
  ports_to_configure = [];
  ports_to_reset = [];
  mirrors_to_add = [];
  mirrors_to_remove = [];
  mirrors_to_update = [];
  mirror_dest_ports_to_configure = [];
  snmp_config_changed = false;
  snmp_config = none;
  snmp_diff = none;
  management_vlan_changed = false;
  management_vlan = none;
}

unfoldable pub has_changes : StateDiff → Bool
unfolding has_snmp_changes
has_changes d =
    not (is_empty d.vlans_to_add)
    || not (is_empty d.vlans_to_remove)
    || not (is_empty d.vlans_to_update)
    || not (is_empty d.ports_to_configure)
    || not (is_empty d.ports_to_reset)
    || not (is_empty d.mirrors_to_add)
    || not (is_empty d.mirrors_to_remove)
    || not (is_empty d.mirrors_to_update)
    || not (is_empty d.mirror_dest_ports_to_configure)
    || d.snmp_config_changed
    || (elim d.snmp_diff [ none ↦ false | some s ↦ has_snmp_changes s ])
    || d.management_vlan_changed
