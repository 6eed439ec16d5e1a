-- ===== src/Vendors/Aruba/Blocks.antt =====
-- The commands of each kind keep to the levels of the command line.
use switch_configurator.Prelude.{
  ℕ, Bool, true, false, not, refl, Option, none, some, List, [], ◌∷◌, Text, text_eq, nat_eq,
  if◌then◌else◌, is_some, map, Bool-cases, inl, inr, filter, contains,
}
use switch_configurator.Models.Hardware.{
  SpeedDuplex, SwitchModel, supports_poe, uses_legacy_mirror_syntax,
}
use switch_configurator.Models.Hardware.Ports.{PortCapabilities, port_capabilities}
use switch_configurator.Models.Network.{
  Vlan, VlanIpConfig, unset, dhcp, static, Port, PortMode, access, trunk, inferred_mode, PortMirror,
  MirrorDirection,
}
use switch_configurator.Models.Snmp.{SnmpConfig, TrapType, trap_type_eq}
use switch_configurator.Vendors.Aruba.{
  speed_duplex, exit, enable, disable, vlan, no_vlan, no_tagged_vlan, vlan_name, no_mirror, traps,
  no_traps, no_public, no_private,
}
use switch_configurator.Vendors.Aruba.Generate.{
  each, ip_command, vlan_block, generate_vlan_commands, not_native, name_commands, untag_commands,
  tag_commands, tagged_unless_empty, membership_commands, poe_for, poe_commands, mac_commands,
  monitor_command, monitor_commands, mirror_command, generate_mirror_commands, community_command,
  host_command, generate_snmp_commands, generate_remove_vlan_commands,
  generate_remove_mirror_commands,
}
use switch_configurator.Vendors.Aruba.Levels.{
  exec, config, in_interface, after_commands, StaysAt, stays-append, stays-map, stays-each,
  stays-configuring,
}

pub vlan_block-StaysAt : (v : Vlan) → StaysAt config (vlan_block v)
unfolding StaysAt after_commands
vlan_block-StaysAt v = go v.ip_config
  where
    go :
        (ip : VlanIpConfig)
        → StaysAt config (vlan v.id ∷ vlan_name v.name ∷ ip_command ip ∷ exit ∷ [])
    go unset = refl
    go dhcp = refl
    go (static a m) = refl

pub vlan_commands-StaysAt : (vlans : List Vlan) → StaysAt exec (generate_vlan_commands vlans)
unfolding generate_vlan_commands
vlan_commands-StaysAt vlans =
    stays-configuring (each vlan_block vlans)
      (stays-each config vlan_block vlans vlan_block-StaysAt)

pub remove_vlan_commands-StaysAt : (ids : List ℕ) → StaysAt exec (generate_remove_vlan_commands ids)
unfolding generate_remove_vlan_commands
remove_vlan_commands-StaysAt ids =
    stays-configuring (map no_vlan ids) (stays-map config no_vlan ids (λ v. refl))

pub remove_mirror_commands-StaysAt :
    (ids : List Text) → StaysAt exec (generate_remove_mirror_commands ids)
unfolding generate_remove_mirror_commands
remove_mirror_commands-StaysAt ids =
    stays-configuring (map no_mirror ids) (stays-map config no_mirror ids (λ v. refl))

defaults-StaysAt : StaysAt config (no_public ∷ no_private ∷ [])
unfolding StaysAt after_commands
defaults-StaysAt = refl

pub snmp_commands-StaysAt :
    (snmp : SnmpConfig) (current_traps : List TrapType)
    → StaysAt exec (generate_snmp_commands snmp current_traps)
unfolding generate_snmp_commands
snmp_commands-StaysAt snmp current_traps = stays-configuring _ (
    stays-append config _ (map traps snmp.enabled_traps)
      (stays-append config _ (map host_command snmp.trap_receivers)
        (stays-append config _ (map community_command snmp.communities)
          (stays-append config
            (map no_traps (filter (λ t. not (contains snmp.enabled_traps t)) current_traps))
            (no_public ∷ no_private ∷ []) (stays-map config no_traps _ (λ t. refl))
            defaults-StaysAt)
          (stays-map config community_command snmp.communities (λ c. refl)))
        (stays-map config host_command snmp.trap_receivers (λ r. refl)))
      (stays-map config traps snmp.enabled_traps (λ t. refl)))

module _ (model : SwitchModel) where
  pub mirror_command-StaysAt : (m : PortMirror) → StaysAt config (mirror_command model m)
  unfolding StaysAt after_commands
  mirror_command-StaysAt m = elim (Bool-cases (uses_legacy_mirror_syntax model)) [
    | inl e ↦ rw e refl
    | inr e ↦ rw e refl
  ]

  pub mirror_commands-StaysAt :
      (mirrors : List PortMirror) → StaysAt exec (generate_mirror_commands model mirrors)
  unfolding generate_mirror_commands
  mirror_commands-StaysAt mirrors =
      stays-configuring (each (mirror_command model) mirrors)
        (stays-each config (mirror_command model) mirrors mirror_command-StaysAt)

  pub poe-StaysAt : (port : Port) → StaysAt in_interface (poe_commands model port)
  unfolding StaysAt after_commands
  poe-StaysAt port = elim (Bool-cases (supports_poe model)) [
    | inl e ↦ elim (Bool-cases port.poe_enabled) [
      | inl p ↦ rw (e, p) (go (port_capabilities model port.port_id))
      | inr p ↦ rw (e, p) refl
    ]
    | inr e ↦ rw e refl
  ]
    where
      go : (caps : Option PortCapabilities) → StaysAt in_interface (poe_for caps)
      go none = refl
      go (some caps) = elim (Bool-cases (is_some caps.poe_support)) [
        | inl e ↦ rw e refl
        | inr e ↦ rw e refl
      ]

  pub monitor-StaysAt :
      (sessions : List (Text × MirrorDirection))
      → StaysAt in_interface (monitor_commands model sessions)
  unfolding StaysAt after_commands
  monitor-StaysAt [] = refl
  monitor-StaysAt (s ∷ ss) = elim (Bool-cases (uses_legacy_mirror_syntax model)) [
    | inl e ↦ rw e refl
    | inr e ↦ rw e (stays-each in_interface monitor_command (s ∷ ss) (λ x. refl))
  ]

pub mac-StaysAt : (on : Bool) → StaysAt in_interface (mac_commands on)
unfolding StaysAt after_commands
mac-StaysAt true = refl
mac-StaysAt false = refl

pub name-StaysAt :
    (text : Option Text) (current : Option Port) → StaysAt in_interface (name_commands text current)
unfolding StaysAt after_commands
name-StaysAt (some text) current = refl
name-StaysAt none none = refl
name-StaysAt none (some port) = elim (Bool-cases (is_some port.description)) [
  | inl e ↦ rw e refl
  | inr e ↦ rw e refl
]

pub untag-StaysAt :
    (mode : PortMode) (port : Port) (current : Option Port)
    → StaysAt in_interface (untag_commands mode port current)
unfolding StaysAt after_commands
untag-StaysAt access port none = refl
untag-StaysAt trunk port none = refl
untag-StaysAt access port (some current) =
    stays-map in_interface no_tagged_vlan (not_native current) (λ v. refl)
untag-StaysAt trunk port (some current) =
    stays-map in_interface no_tagged_vlan
      (filter (λ v. not (contains (not_native port) v)) (not_native current)) (λ v. refl)

pub tag-StaysAt : (mode : PortMode) (port : Port) → StaysAt in_interface (tag_commands mode port)
unfolding StaysAt after_commands
tag-StaysAt access port = refl
tag-StaysAt trunk port = go (not_native port)
  where
    go : (vs : List ℕ) → StaysAt in_interface (tagged_unless_empty vs)
    go [] = refl
    go (v ∷ vs) = refl

pub membership-StaysAt :
    (port : Port) (current : Option Port) → StaysAt in_interface (membership_commands port current)
unfolding StaysAt after_commands
membership-StaysAt port current =
    stays-append in_interface (untag_commands (inferred_mode port) port current)
      (tag_commands (inferred_mode port) port) (untag-StaysAt (inferred_mode port) port current)
      (tag-StaysAt (inferred_mode port) port)

pub speed-StaysAt : (speed : SpeedDuplex) → StaysAt in_interface (speed_duplex speed ∷ [])
unfolding StaysAt after_commands
speed-StaysAt speed = refl

pub enable-StaysAt : (on : Bool) → StaysAt in_interface ((if on then enable else disable) ∷ [])
unfolding StaysAt after_commands
enable-StaysAt true = refl
enable-StaysAt false = refl
