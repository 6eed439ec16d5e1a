-- ===== src/Vendors/Aruba/Apply.antt =====
-- vendors/aruba.rs: `apply_diff`, as the lists of commands that it sends one after the other while the switch
-- accepts them.
use switch_configurator.Prelude.{
  ℕ, Bool, true, false, Option, none, some, List, [], ◌∷◌, ◌++◌, Text, nat_eq, ◌!=◌, if◌then◌else◌,
  filter, map,
}
use switch_configurator.Prelude.HashMap.{HashOrder}
use switch_configurator.Models.Hardware.{SwitchModel, supports_poe}
use switch_configurator.Models.Network.{Port, PortMirror}
use switch_configurator.Models.Snmp.{
  SnmpConfig, SnmpCommunity, TrapType, mac_notify, link_change, all,
}
use switch_configurator.Models.State.{SwitchState, StateDiff, SnmpStateDiff, has_snmp_changes}
use switch_configurator.Diff.Migration.{find_ports_to_migrate}
use switch_configurator.Vendors.Aruba.{
  Command, exit, enable, disable, untagged_vlan, no_tagged_vlan, interface, no_name, poe_by_class,
  no_mac_learned, no_mac_removed, traps, no_traps, no_community, no_host, no_link_traps,
  management_vlan, no_management_vlan,
}
use switch_configurator.Vendors.Aruba.Generate.{
  each, configuring, normalize_port_id, not_native, current_port, community_command, host_command,
  generate_vlan_commands, generate_port_commands, generate_mirror_commands,
  generate_remove_vlan_commands, generate_remove_mirror_commands,
}
use switch_configurator.Vendors.Aruba.Preview.{migration_commands}

abbrev pub update_commands : SnmpCommunity → List Command
update_commands c = no_community c.name ∷ community_command c ∷ []

abbrev pub enable_traps : TrapType → List Command
enable_traps mac_notify = traps mac_notify ∷ []
enable_traps link_change = traps link_change ∷ []
enable_traps all = traps mac_notify ∷ traps link_change ∷ []

abbrev pub disable_traps : TrapType → List Command
disable_traps mac_notify = no_traps mac_notify ∷ []
disable_traps link_change = no_link_traps ∷ []
disable_traps all = no_traps mac_notify ∷ no_link_traps ∷ []

-- `apply_snmp_diff`, where there are changes
unfoldable pub snmp_diff_commands : SnmpStateDiff → List Command
unfolding each
snmp_diff_commands d = configuring (
    map no_community d.communities_to_remove
    ++ each update_commands d.communities_to_update
    ++ map community_command d.communities_to_add
    ++ map no_host d.trap_receivers_to_remove
    ++ map host_command d.trap_receivers_to_add
    ++ each enable_traps d.traps_to_enable
    ++ each disable_traps d.traps_to_disable)

abbrev pub mirror_dest_block : Text → List Command
mirror_dest_block port_id =
    interface (normalize_port_id port_id) ∷ disable ∷ untagged_vlan 1 ∷ no_name ∷ enable ∷ exit ∷ []

unfoldable pub mirror_dest_commands : List Text → List Command
unfolding each
mirror_dest_commands port_ids = configuring (each mirror_dest_block port_ids)

-- what is sent for a list, if there is something in it
abbrev pub send_if {ℓ} : {A : Type ℓ} → List A → List Command → List (List Command)
send_if [] commands = []
send_if (x ∷ xs) commands = commands ∷ []

abbrev pub management_batch : Bool → Option ℕ → List (List Command)
management_batch false vlan = []
management_batch true none = configuring (no_management_vlan ∷ []) ∷ []
management_batch true (some vlan) = configuring (management_vlan vlan ∷ []) ∷ []

abbrev pub untag_reset : Option Port → List Command
untag_reset none = []
untag_reset (some port) = map no_tagged_vlan (not_native port)

abbrev pub reset_poe : SwitchModel → List Command
reset_poe model = if supports_poe model then poe_by_class ∷ [] else []

-- `none` where the whole SNMP part is replaced, which is not modelled
abbrev pub snmp_batch :
    Bool → Option SnmpStateDiff → Option SnmpConfig → Option (List (List Command))
snmp_batch changed (some d) config =
    some (if has_snmp_changes d then snmp_diff_commands d ∷ [] else [])
snmp_batch false none config = some []
snmp_batch true none none = some []
snmp_batch true none (some snmp) = none

abbrev pub with_late :
    List (List Command) → Option (List (List Command)) → StateDiff → Option (List (List Command))
with_late early none diff = none
with_late early (some snmp) diff =
    some (early ++ snmp ++ management_batch diff.management_vlan_changed diff.management_vlan)

module _ (model : SwitchModel) (current_state : Option SwitchState) where
  unfoldable pub reset_settings : Text → List Command
  reset_settings port_id =
      disable ∷ no_name ∷ untagged_vlan 1 ∷ []
      ++ untag_reset (current_port model current_state port_id)
      ++ no_mac_learned ∷ no_mac_removed ∷ []
      ++ reset_poe model

  abbrev pub reset_ports_block : Text → List Command
  reset_ports_block port_id =
      interface (normalize_port_id port_id) ∷ (reset_settings port_id ++ exit ∷ [])

  unfoldable pub reset_ports_commands : List Text → List Command
  unfolding each reset_settings
  reset_ports_commands port_ids = configuring (each reset_ports_block port_ids)

module _ (current_state : Option SwitchState) (order : HashOrder ℕ) where
  abbrev pub migration_batch : List ℕ → List (List Command)
  migration_batch vlans = elim current_state [
    | none ↦ []
    | some state ↦
        let ms = find_ports_to_migrate state vlans in send_if ms (migration_commands order ms)
  ]

  abbrev pub removal_batches : List ℕ → List (List Command)
  removal_batches [] = []
  removal_batches (v ∷ vs) = migration_batch (v ∷ vs) ++ generate_remove_vlan_commands (v ∷ vs) ∷ []

-- The driver also knows the mirrors of the whole configuration.
module _ (model : SwitchModel) (current_state : Option SwitchState) (port_mirrors : List PortMirror)
    (order : HashOrder ℕ) where
  abbrev pub early_batches : StateDiff → List (List Command)
  early_batches diff =
      removal_batches current_state order (filter (λ v. v != 1) diff.vlans_to_remove)
      ++ send_if diff.vlans_to_add (generate_vlan_commands diff.vlans_to_add)
      ++ send_if diff.vlans_to_update (generate_vlan_commands diff.vlans_to_update)
      ++ send_if diff.ports_to_configure
          (generate_port_commands model current_state diff.ports_to_configure port_mirrors)
      ++ send_if diff.ports_to_reset (reset_ports_commands model current_state diff.ports_to_reset)
      ++ send_if diff.mirror_dest_ports_to_configure
          (mirror_dest_commands diff.mirror_dest_ports_to_configure)
      ++ send_if diff.mirrors_to_remove (generate_remove_mirror_commands diff.mirrors_to_remove)
      ++ send_if diff.mirrors_to_add (generate_mirror_commands model diff.mirrors_to_add)
      ++ send_if diff.mirrors_to_update (generate_mirror_commands model diff.mirrors_to_update)

  unfoldable pub apply_diff : StateDiff → Option (List (List Command))
  unfolding each find_ports_to_migrate generate_vlan_commands generate_port_commands
      reset_ports_commands mirror_dest_commands generate_mirror_commands
  apply_diff diff =
      with_late (early_batches diff)
        (snmp_batch diff.snmp_config_changed diff.snmp_diff diff.snmp_config) diff
