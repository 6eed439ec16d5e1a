-- ===== src/Vendors/Aruba/Nested.antt =====
-- The commands for ports and for migrations keep to the levels of the command line.
use switch_configurator.Prelude.{
  ℕ, refl, Option, List, [], ◌∷◌, ◌++◌, text_eq, nat_eq, if◌then◌else◌, unwrap_or,
}
use switch_configurator.Prelude.HashMap.{HashMap, HashOrder, get, keys}
use switch_configurator.Models.Hardware.{SwitchModel}
use switch_configurator.Models.Network.{Port, PortMirror}
use switch_configurator.Models.Snmp.{trap_type_eq}
use switch_configurator.Models.State.{SwitchState}
use switch_configurator.Diff.Migration.{PortMigration}
use switch_configurator.Vendors.Aruba.{
  exit, enable, disable, vlan, speed_duplex, no_untagged_ports, no_tagged_ports,
}
use switch_configurator.Vendors.Aruba.Generate.{
  each, Sessions, name_commands, membership_commands, poe_commands, mac_commands, monitor_commands,
  current_port, port_settings, port_block, generate_port_commands, mirror_sources,
  normalize_port_id,
}
use switch_configurator.Vendors.Aruba.Levels.{
  exec, config, in_interface, after_commands, after-append, StaysAt, stays-append, stays-each,
  stays-configuring,
}
use switch_configurator.Vendors.Aruba.Preview.{
  Members, unless_empty, vlans_to_clean, clean_block, migration_commands,
}
use switch_configurator.Vendors.Aruba.Blocks.{
  speed-StaysAt, poe-StaysAt, monitor-StaysAt, mac-StaysAt, name-StaysAt, membership-StaysAt,
  enable-StaysAt,
}

module _ (model : SwitchModel) (current_state : Option SwitchState) where
  settings-StaysAt :
      (sessions : Sessions) (port : Port)
      → StaysAt in_interface (port_settings model current_state sessions port)
  unfolding port_settings
  settings-StaysAt sessions port =
      let current = current_port model current_state port.port_id in
      stays-append in_interface _
        (monitor_commands model (unwrap_or (get (normalize_port_id port.port_id) sessions) []))
        (stays-append in_interface _ (speed_duplex port.speed_duplex ∷ [])
          (stays-append in_interface _ (mac_commands port.mac_notify)
            (stays-append in_interface _ (poe_commands model port)
              (stays-append in_interface _ ((if port.enabled then enable else disable) ∷ [])
                (stays-append in_interface (name_commands port.description current)
                  (membership_commands port current) (name-StaysAt port.description current)
                  (membership-StaysAt port current))
                (enable-StaysAt port.enabled))
              (poe-StaysAt model port))
            (mac-StaysAt port.mac_notify))
          (speed-StaysAt port.speed_duplex))
        (monitor-StaysAt model _)

  port_block-StaysAt :
      (sessions : Sessions) (port : Port)
      → StaysAt config (port_block model current_state sessions port)
  unfolding StaysAt after_commands
  port_block-StaysAt sessions port =
      rw
        (after-append (port_settings model current_state sessions port) (exit ∷ []) in_interface
          in_interface (settings-StaysAt sessions port))
        refl

  pub port_commands-StaysAt :
      (ports : List Port) (mirrors : List PortMirror)
      → StaysAt exec (generate_port_commands model current_state ports mirrors)
  unfolding generate_port_commands
  port_commands-StaysAt ports mirrors =
      stays-configuring (each (port_block model current_state (mirror_sources [] mirrors)) ports) (
        stays-each config (port_block model current_state (mirror_sources [] mirrors)) ports
          (port_block-StaysAt (mirror_sources [] mirrors)))

clean_block-StaysAt : (vlans : HashMap ℕ Members) (v : ℕ) → StaysAt config (clean_block vlans v)
unfolding StaysAt after_commands
clean_block-StaysAt vlans v = go (unwrap_or (get v vlans) ([], []))
  where
    go :
        (m : Members)
        → StaysAt config (
            vlan v
            ∷ (unless_empty no_untagged_ports m.0 ++ unless_empty no_tagged_ports m.1 ++ exit ∷ []))
    go ([], []) = refl
    go ([], t ∷ ts) = refl
    go (u ∷ us, []) = refl
    go (u ∷ us, t ∷ ts) = refl

-- Whatever ports are migrated and in whatever order the VLANs are visited, each command of the migration is
-- sent where the switch knows it, the session never ends, and it is at the exec level again afterwards.
pub migration_commands-StaysAt :
    (order : HashOrder ℕ) (ms : List PortMigration) → StaysAt exec (migration_commands order ms)
unfolding migration_commands
migration_commands-StaysAt order ms =
    let vlans = vlans_to_clean [] ms in
    stays-configuring (each (clean_block vlans) (order.visit (keys vlans)))
      (stays-each config (clean_block vlans) (order.visit (keys vlans)) (clean_block-StaysAt vlans))
