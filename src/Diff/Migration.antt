-- ===== src/Diff/Migration.antt =====
-- `find_ports_to_migrate` of diff/mod.rs.
pub mod Frees
pub mod Exact
use switch_configurator.Prelude.{
  ℕ, not, Option, none, some, List, [], ◌∷◌, Text, ◌==◌, nat_eq, filter, filter_map, contains,
  is_empty, if◌then◌else◌,
}
use switch_configurator.Models.Network.{Port, access, trunk, inferred_mode}
use switch_configurator.Models.State.{SwitchState}

pub data PortMigrationAction : Type 0 where
  move_access_to_vlan1 : PortMigrationAction
  remove_vlan_from_trunk : List ℕ → PortMigrationAction

pub record PortMigration : Type 0 where
  pub port_id : Text
  pub vlan_being_removed : ℕ
  pub action : PortMigrationAction

-- The loop over the VLANs for one port; the second argument is `vlan_set`.
unfoldable pub migrate_port : Port → List ℕ → List ℕ → Option PortMigration
migrate_port port vlan_set [] = none
migrate_port port vlan_set (vlan_id ∷ rest) =
    let next = migrate_port port vlan_set rest in
    elim (inferred_mode port) [
      | access ↦
          if port.vlan == vlan_id
          then some (record {
            port_id = port.port_id;
            vlan_being_removed = vlan_id;
            action = move_access_to_vlan1;
          })
          else next
      | trunk ↦
          if contains port.tagged_vlans vlan_id
          then some (record {
            port_id = port.port_id;
            vlan_being_removed = vlan_id;
            action =
                remove_vlan_from_trunk (filter (λ v. not (contains vlan_set v)) port.tagged_vlans);
          })
          else next
    ]

unfoldable pub find_ports_to_migrate : SwitchState → List ℕ → List PortMigration
find_ports_to_migrate current_state vlans_to_remove =
    if is_empty vlans_to_remove
    then []
    else filter_map (λ port. migrate_port port vlans_to_remove vlans_to_remove) current_state.ports
