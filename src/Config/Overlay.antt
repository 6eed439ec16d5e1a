-- ===== src/Config/Overlay.antt =====
-- config.rs: `validate_overlay_config`.
pub mod Accepted
use switch_configurator.Prelude.{
  ℕ, Bool, true, false, not, ◌&&◌, ◌||◌, Option, none, some, List, [], ◌∷◌, ◌++◌, Text, text_eq,
  nat_eq, ltb, contains, map, if◌then◌else◌,
}
use switch_configurator.Models.Hardware.{SwitchModel, implicit_vlans}
use switch_configurator.Models.Network.{Vlan, Port, PortMirror}
use switch_configurator.Models.SwitchConfig.{SwitchConfig}
use switch_configurator.Config.Result.{
  Result, ok, err, ◌>>=◌, ◌>>◌, duplicate_vlan, vlan_out_of_range, duplicate_port, undefined_vlan,
  undefined_tagged_vlan, destination_in_ports,
}
use switch_configurator.Config.PortRange.{expand_port_ranges}
use switch_configurator.Config.Names.{resolve_vlan_names}
use switch_configurator.Config.Snmp.{check_snmp_secret_sources, check_vendor_support}

-- the loop; the first argument is `seen_vlans`
unfoldable pub check_vlan_ids : List ℕ → List Vlan → Result (Unit {0})
check_vlan_ids seen [] = ok tt
check_vlan_ids seen (v ∷ vs) =
    let rest = check_vlan_ids (v.id ∷ seen) vs in
    if contains seen v.id
    then err (duplicate_vlan v.id)
    else if ltb v.id 1 || ltb 4094 v.id
    then err (vlan_out_of_range v.id)
    else rest

-- the loop; the first argument is `seen_ports`
unfoldable pub check_port_ids : List Text → List Port → Result (Unit {0})
check_port_ids seen [] = ok tt
check_port_ids seen (p ∷ ps) =
    let rest = check_port_ids (p.port_id ∷ seen) ps in
    if contains seen p.port_id then err (duplicate_port p.port_id) else rest

abbrev implicit_of : Option SwitchModel → List ℕ
implicit_of none = 1 ∷ []
implicit_of (some model) = implicit_vlans model

-- `valid_vlans`; a set, of which only membership is asked
unfoldable pub valid_vlans : SwitchConfig → List ℕ → List ℕ
valid_vlans switch external = map (λ v. v.id) switch.vlans ++ external ++ implicit_of switch.model

unfoldable pub check_tags : List ℕ → Text → List ℕ → Result (Unit {0})
check_tags valid port_id [] = ok tt
check_tags valid port_id (t ∷ ts) =
    let rest = check_tags valid port_id ts in
    if contains valid t then rest else err (undefined_tagged_vlan port_id t)

unfoldable pub check_port_vlans : List ℕ → List Port → Result (Unit {0})
check_port_vlans valid [] = ok tt
check_port_vlans valid (p ∷ ps) =
    let rest = check_port_vlans valid ps in
    if contains valid p.vlan
    then check_tags valid p.port_id p.tagged_vlans >> rest
    else err (undefined_vlan p.port_id p.vlan)

unfoldable pub check_destinations : List Text → List PortMirror → Result (Unit {0})
check_destinations defined [] = ok tt
check_destinations defined (m ∷ ms) =
    let rest = check_destinations defined ms in
    if contains defined m.destination_port
    then err (destination_in_ports m.session_id m.destination_port)
    else rest

-- the checks on the switch that the names are resolved in
unfoldable pub check_references : List ℕ → SwitchConfig → Result (Unit {0})
unfolding check_port_vlans
check_references external switch = do
  check_port_vlans (valid_vlans switch external) switch.ports
  check_destinations (map (λ p. p.port_id) switch.ports) switch.port_mirrors

-- the checks behind the expansion of the port ranges; the first argument is `known_external_vlan_ids`
unfoldable pub check_expanded : List ℕ → SwitchConfig → Result SwitchConfig
unfolding check_references
check_expanded external expanded = do
  check_vlan_ids [] expanded.vlans
  check_port_ids [] expanded.ports
  resolved ← resolve_vlan_names expanded true
  check_references external resolved
  ok resolved

unfoldable pub validate_overlay_config : SwitchConfig → List ℕ → Result SwitchConfig
unfolding check_expanded
validate_overlay_config switch external = do
  check_snmp_secret_sources switch
  check_vendor_support switch
  expanded ← expand_port_ranges switch
  check_expanded external expanded
