-- ===== src/Diff/Vlans.antt =====
-- `diff_vlans` of diff/mod.rs.
pub mod Converges
use switch_configurator.Prelude.{
  ℕ, Bool, true, false, not, ◌&&◌, ◌||◌, Option, none, some, ◌++◌, ◌==◌, ◌!=◌, nat_eq, text_eq,
  filter, if◌then◌else◌,
}
use switch_configurator.Prelude.HashMap.{HashOrder}
use switch_configurator.Models.Hardware.{SwitchModel, supports_vlan_description}
use switch_configurator.Models.Network.{Vlan, option_text_eq, vlan_ip_config_eq}
use switch_configurator.Models.SwitchConfig.{SwitchConfig}
use switch_configurator.Models.State.{SwitchState, StateDiff}
use switch_configurator.Diff.Keyed.{added, removed, changed}

abbrev pub vlan_key : Vlan → ℕ
vlan_key v = v.id

unfoldable pub vlans_equivalent_for_model : Vlan → Vlan → Bool → Bool
vlans_equivalent_for_model current desired supports =
    if current.id != desired.id || current.name != desired.name
    then false
    else if current.ip_config != desired.ip_config
    then false
    else if supports && current.description != desired.description
    then false
    else true

-- `map_or(true, |m| m.supports_vlan_description())`
unfoldable pub describes_vlans : Option SwitchModel → Bool
unfolding supports_vlan_description
describes_vlans none = true
describes_vlans (some m) = supports_vlan_description m

unfoldable pub diff_vlans : HashOrder ℕ → SwitchState → SwitchConfig → StateDiff → StateDiff
diff_vlans order current desired diff =
    let same = λ (c d : Vlan). vlans_equivalent_for_model c d (describes_vlans desired.model) in
    record diff {
      vlans_to_add = diff.vlans_to_add ++ added vlan_key order current.vlans desired.vlans;
      vlans_to_remove =
          diff.vlans_to_remove
          ++ filter (λ id. not (id == 1)) (removed vlan_key order current.vlans desired.vlans);
      vlans_to_update =
          diff.vlans_to_update ++ changed vlan_key order same current.vlans desired.vlans;
    }
