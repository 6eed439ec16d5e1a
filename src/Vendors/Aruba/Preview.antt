-- ===== src/Vendors/Aruba/Preview.antt =====
-- vendors/aruba.rs: `migrate_ports_before_vlan_deletion`, and the preview of the commands for a difference.
use switch_configurator.Prelude.{
  ℕ, Option, none, some, List, [], ◌∷◌, ◌++◌, Text, nat_eq, if◌then◌else◌, is_empty, unwrap_or,
}
use switch_configurator.Prelude.HashMap.{HashMap, HashOrder, get, insert, keys}
use switch_configurator.Models.Hardware.{SwitchModel}
use switch_configurator.Models.Snmp.{SnmpConfig, TrapType}
use switch_configurator.Models.State.{SwitchState, StateDiff, SnmpStateDiff, has_snmp_changes}
use switch_configurator.Diff.Migration.{PortMigration, move_access_to_vlan1, remove_vlan_from_trunk}
use switch_configurator.Vendors.Aruba.{
  Command, exit, disable, vlan, untagged_vlan, interface, no_untagged_ports, no_tagged_ports,
}
use switch_configurator.Vendors.Aruba.Generate.{
  each, configuring, normalize_port_id, generate_vlan_commands, generate_port_commands,
  generate_mirror_commands, generate_snmp_commands, generate_remove_vlan_commands,
  generate_remove_mirror_commands,
}

-- the ports that lose a VLAN: untagged and tagged
abbrev pub Members : Type 0
Members = List Text × List Text

abbrev pub add_member : PortMigration → Members → Members
add_member m (untagged, tagged) = elim m.action [
  | move_access_to_vlan1 ↦ (untagged ++ m.port_id ∷ [], tagged)
  | remove_vlan_from_trunk vs ↦ (untagged, tagged ++ m.port_id ∷ [])
]

unfoldable pub vlans_to_clean : HashMap ℕ Members → List PortMigration → HashMap ℕ Members
vlans_to_clean vlans [] = vlans
vlans_to_clean vlans (m ∷ ms) =
    let v = m.vlan_being_removed in
    vlans_to_clean (insert v (add_member m (unwrap_or (get v vlans) ([], []))) vlans) ms

abbrev pub unless_empty : (List Text → Command) → List Text → List Command
unless_empty command ports = if is_empty ports then [] else command ports ∷ []

abbrev pub clean_block : HashMap ℕ Members → ℕ → List Command
clean_block vlans v =
    let (untagged, tagged) = unwrap_or (get v vlans) ([], []) in
    vlan v
    ∷ (unless_empty no_untagged_ports untagged ++ unless_empty no_tagged_ports tagged ++ exit ∷ [])

-- The order in which the VLANs are visited is an argument.
unfoldable pub migration_commands : HashOrder ℕ → List PortMigration → List Command
unfolding each vlans_to_clean
migration_commands order ms =
    let vlans = vlans_to_clean [] ms in
    configuring (each (clean_block vlans) (order.visit (keys vlans)))

pub record CommandPreview : Type 0 where
  pub vlan_commands : List Command
  pub port_commands : List Command
  pub mirror_commands : List Command
  pub snmp_commands : List Command
  pub reset_commands : List Command
  pub other_commands : List Command

-- what is generated for a list, if there is something in it
abbrev pub if_any {ℓ} : {A : Type ℓ} → List A → List Command → List Command
if_any [] commands = []
if_any (x ∷ xs) commands = commands

abbrev pub reset_block : Text → List Command
reset_block port_id = interface (normalize_port_id port_id) ∷ disable ∷ untagged_vlan 1 ∷ exit ∷ []

abbrev pub current_traps : Option SwitchState → List TrapType
current_traps none = []
current_traps (some state) = elim state.snmp [ none ↦ [] | some snmp ↦ snmp.enabled_traps ]

abbrev pub snmp_preview :
    Option SwitchState → Option SnmpStateDiff → Option SnmpConfig → List Command
snmp_preview current none config = []
snmp_preview current (some d) none = []
snmp_preview current (some d) (some snmp) =
    if has_snmp_changes d then generate_snmp_commands snmp (current_traps current) else []

unfoldable pub generate_commands_for_diff :
    SwitchModel → Option SwitchState → StateDiff → CommandPreview
unfolding each generate_remove_vlan_commands generate_vlan_commands generate_port_commands
    generate_remove_mirror_commands generate_mirror_commands
generate_commands_for_diff model current diff = record {
  vlan_commands =
      if_any diff.vlans_to_remove (generate_remove_vlan_commands diff.vlans_to_remove)
      ++ if_any diff.vlans_to_add (generate_vlan_commands diff.vlans_to_add)
      ++ if_any diff.vlans_to_update (generate_vlan_commands diff.vlans_to_update);
  port_commands = if_any diff.ports_to_configure (
      generate_port_commands model current diff.ports_to_configure
        (diff.mirrors_to_add ++ diff.mirrors_to_update));
  mirror_commands =
      if_any diff.mirrors_to_remove (generate_remove_mirror_commands diff.mirrors_to_remove)
      ++ if_any diff.mirrors_to_add (generate_mirror_commands model diff.mirrors_to_add)
      ++ if_any diff.mirrors_to_update (generate_mirror_commands model diff.mirrors_to_update);
  snmp_commands = snmp_preview current diff.snmp_diff diff.snmp_config;
  reset_commands = each reset_block diff.ports_to_reset;
  other_commands = [];
}
