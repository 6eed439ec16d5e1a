-- ===== src/Diff/Mirrors.antt =====
-- `diff_mirrors` of diff/mod.rs.
pub mod Converges
use switch_configurator.Prelude.{
  Bool, true, not, ◌&&◌, Option, none, some, List, [], ◌∷◌, ◌++◌, Text, ◌==◌, nat_eq, text_eq,
  contains, is_empty, if◌then◌else◌,
}
use switch_configurator.Prelude.HashMap.{HashMap, HashOrder, collect, get}
use switch_configurator.Models.Network.{
  Port, PortMirror, access, port_mode_eq, port_mirror_eq, inferred_mode,
}
use switch_configurator.Models.SwitchConfig.{SwitchConfig}
use switch_configurator.Models.State.{SwitchState, StateDiff}
use switch_configurator.Diff.Keyed.{added, removed, changed}
use switch_configurator.Diff.Ports.{port_key}

abbrev pub mirror_key : PortMirror → Text
mirror_key m = m.session_id

-- VLAN 1, enabled, access mode
unfoldable pub is_baseline : Port → Bool
unfolding inferred_mode
is_baseline port =
    port.vlan == 1 && port.enabled && inferred_mode port == access && is_empty port.tagged_vlans

unfoldable pub needs_baseline : Option Port → Bool
needs_baseline none = true
needs_baseline (some port) = not (is_baseline port)

-- The loop over the wanted mirrors; the second argument is `seen_dest_ports`.
unfoldable pub dest_ports_to_configure : HashMap Text Port → List Text → List PortMirror → List Text
dest_ports_to_configure current_ports seen [] = []
dest_ports_to_configure current_ports seen (m ∷ ms) =
    let dest = m.destination_port in
    let skip = dest_ports_to_configure current_ports seen ms in
    let rest = dest_ports_to_configure current_ports (dest ∷ seen) ms in
    if contains seen dest
    then skip
    else if needs_baseline (get dest current_ports)
    then dest ∷ rest
    else rest

unfoldable pub diff_mirrors : HashOrder Text → SwitchState → SwitchConfig → StateDiff → StateDiff
diff_mirrors order current desired diff = record diff {
  mirrors_to_add =
      diff.mirrors_to_add ++ added mirror_key order current.port_mirrors desired.port_mirrors;
  mirrors_to_remove =
      diff.mirrors_to_remove ++ removed mirror_key order current.port_mirrors desired.port_mirrors;
  mirrors_to_update =
      diff.mirrors_to_update
      ++ changed mirror_key order (λ c d. c == d) current.port_mirrors desired.port_mirrors;
  mirror_dest_ports_to_configure =
      diff.mirror_dest_ports_to_configure
      ++ dest_ports_to_configure (collect port_key current.ports) [] desired.port_mirrors;
}
