-- ===== src/Diff/Ports.antt =====
-- `diff_ports` of diff/mod.rs.
pub mod Equivalent
pub mod Converges
use switch_configurator.Prelude.{
  ℕ, Bool, true, false, not, ◌&&◌, ◌||◌, Option, none, some, List, [], ◌++◌, Text, ◌==◌, ◌!=◌,
  nat_eq, text_eq, filter, contains, map, is_empty, if◌then◌else◌,
}
use switch_configurator.Prelude.HashMap.{HashOrder, collect, get}
use switch_configurator.Models.Hardware.{SwitchModel, supports_poe, speed_duplex_eq}
use switch_configurator.Models.Network.{
  Port, access, port_mode_eq, option_text_eq, bool_eq, inferred_mode,
}
use switch_configurator.Models.SwitchConfig.{SwitchConfig}
use switch_configurator.Models.State.{SwitchState, StateDiff}
use switch_configurator.Diff.Keyed.{removed}

abbrev pub port_key : Port → Text
port_key p = p.port_id

abbrev no_text : Option Text → Bool
no_text none = true
no_text (some s) = is_empty s

unfoldable pub is_port_in_default_state : Port → Bool
is_port_in_default_state port =
    not port.enabled
    && port.vlan == 1
    && inferred_mode port == access
    && no_text port.description
    && is_empty port.tagged_vlans
    && not port.mac_notify

-- the tagged VLANs but for the native one
unfoldable pub foreign_tags : Port → List ℕ
unfolding filter
foreign_tags port = filter (λ v. v != port.vlan) port.tagged_vlans

unfoldable pub ports_equivalent_for_model : Port → Port → Bool → Bool
ports_equivalent_for_model current desired poe =
    if current.port_id != desired.port_id
      || current.vlan != desired.vlan
      || current.description != desired.description
      || current.enabled != desired.enabled
      || current.mac_notify != desired.mac_notify
      || current.speed_duplex != desired.speed_duplex
    then false
    else if poe && current.poe_enabled != desired.poe_enabled
    then false
    else if foreign_tags current != foreign_tags desired
    then false
    else if is_empty (foreign_tags current) && is_empty (foreign_tags desired)
    then true
    else inferred_mode current == inferred_mode desired

-- `map_or(true, |m| m.supports_poe())`
unfoldable pub powers_ports : Option SwitchModel → Bool
unfolding supports_poe
powers_ports none = true
powers_ports (some m) = supports_poe m

-- Does a wanted port differ from the one that the switch has?
unfoldable pub needs_config : Bool → Option Port → Port → Bool
needs_config poe none desired = true
needs_config poe (some current) desired = not (ports_equivalent_for_model current desired poe)

-- Is a port that is not wanted to be reset?
unfoldable pub needs_reset : List Text → Option Port → Text → Bool
needs_reset mirror_dest_ports current port_id =
    if contains mirror_dest_ports port_id
    then false
    else elim current [ none ↦ true | some port ↦ not (is_port_in_default_state port) ]

unfoldable pub diff_ports :
    HashOrder Text → SwitchState → SwitchConfig → Bool → StateDiff → StateDiff
diff_ports order current desired enforce_port_config diff =
    let current_ports = collect port_key current.ports in
    let poe = powers_ports desired.model in
    let mirror_dest_ports = map (λ m. m.destination_port) desired.port_mirrors in
    record diff {
      ports_to_configure =
          diff.ports_to_configure
          ++ filter (λ p. needs_config poe (get p.port_id current_ports) p) desired.ports;
      ports_to_reset =
          diff.ports_to_reset
          ++ (if enforce_port_config
              then filter (λ k. needs_reset mirror_dest_ports (get k current_ports) k)
                  (removed port_key order current.ports desired.ports)
              else []);
    }
