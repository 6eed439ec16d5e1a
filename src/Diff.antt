-- ===== src/Diff.antt =====
-- diff/mod.rs: `compute_diff`, and one module for each of the comparisons that it makes.
pub mod Keyed
pub mod Vlans
pub mod Ports
pub mod Mirrors
pub mod Snmp
pub mod Migration
pub mod Apply
pub mod Converges
use switch_configurator.Prelude.{
  ℕ, Bool, true, false, Text, Eq, nat_eq, text_eq, not, ◌!=◌, if◌then◌else◌,
}
use switch_configurator.Prelude.HashMap.{HashOrder}
use switch_configurator.Models.Network.{option_id_eq}
use switch_configurator.Models.Snmp.{TrapType, trap_type_eq}
use switch_configurator.Models.SwitchConfig.{SwitchConfig}
use switch_configurator.Models.State.{SwitchState, StateDiff, empty_diff}
use Vlans.{diff_vlans}
use Ports.{diff_ports}
use Mirrors.{diff_mirrors}
use Snmp.{diff_snmp}

unfoldable pub diff_management_vlan : SwitchState → SwitchConfig → StateDiff → StateDiff
diff_management_vlan current desired diff =
    let changed = current.management_vlan != desired.management_vlan in
    record diff {
      management_vlan_changed = changed;
      management_vlan = if changed then desired.management_vlan else diff.management_vlan;
    }

-- The orders in which the `HashMap`s and `HashSet`s of the three key types are visited.
pub record Orders : Type 0 where
  pub ids : HashOrder ℕ
  pub texts : HashOrder Text
  pub traps : HashOrder TrapType

unfoldable pub compute_diff : Orders → SwitchState → SwitchConfig → Bool → StateDiff
compute_diff o current desired enforce_port_config =
    let diff₁ = diff_vlans o.ids current desired empty_diff in
    let diff₂ = diff_ports o.texts current desired enforce_port_config diff₁ in
    let diff₃ = diff_mirrors o.texts current desired diff₂ in
    let diff₄ = diff_snmp o.texts o.traps current desired diff₃ in
    diff_management_vlan current desired diff₄
