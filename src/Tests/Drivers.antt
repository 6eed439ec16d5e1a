-- ===== src/Tests/Drivers.antt =====
-- The commands of the Aruba driver for a trunk of the example.
use switch_configurator.Diff.Keyed.{added, changed, removed}
use switch_configurator.Prelude.Sort.{sort}
use switch_configurator.Prelude.{
  ℕ, ◌||◌, contains, any, filter, filter_map, not, ◌&&◌, nat_eq, false, List, none, true, ◌≡◌, refl,
  some, [], ◌∷◌, codes, text_eq, find,
}
use switch_configurator.Models.Hardware.{aruba2930f}
use switch_configurator.Models.Network.{inferred_mode, Port}
use switch_configurator.Models.State.{SwitchState, StateDiff, empty_diff}
use switch_configurator.Vendors.Aruba.Generate.{current_port, port_settings}
use switch_configurator.Vendors.Aruba.Tags.{
  obey_all, membership_of, HasMembership, port_settings-HasMembership,
}
use switch_configurator.Prelude.HashMap.{insert, insertion_order}
use switch_configurator.Models.Snmp.{SnmpConfig, all, link_change, mac_notify, trap_type_eq}
use switch_configurator.Models.State.{SnmpStateDiff}
use switch_configurator.Diff.{compute_diff}
use switch_configurator.Diff.Snmp.{compute_snmp_diff}
use switch_configurator.Vendors.Aruba.{Command}
use switch_configurator.Vendors.Aruba.Apply.{apply_diff, snmp_diff_commands}
use switch_configurator.Vendors.Aruba.Applied.{AllStay, apply_computed-AllStay}
use switch_configurator.Vendors.Aruba.Preview.{migration_commands}
use switch_configurator.Vendors.Aruba.Cleared.{clear_all, clears, migration_commands-clears}
use switch_configurator.Diff.Migration.{
  PortMigration, remove_vlan_from_trunk, find_ports_to_migrate, migrate_port,
}
use switch_configurator.Vendors.Aruba.Traps.{Traps, traps_after, listed, snmp_diff_traps}
use switch_configurator.Tests.Data.{office, port_on, current_state, wanted, orders}

abbrev uplink : Port
uplink = port_on (codes "port1") 10 (20 ∷ 40 ∷ [])

abbrev old_uplink : Port
old_uplink = port_on (codes "port1") 30 (20 ∷ 30 ∷ 50 ∷ [])

abbrev old_state : SwitchState
old_state = record current_state { ports = old_uplink ∷ [] }

abbrev uplink_diff : StateDiff
uplink_diff = record empty_diff {
  vlans_to_add = office ∷ [];
  vlans_to_remove = 30 ∷ [];
  ports_to_configure = uplink ∷ [];
  ports_to_reset = codes "24" ∷ [];
}

uplink_known : current_port aruba2930f (some old_state) (codes "port1") ≡ some old_uplink
unfolding find text_eq
uplink_known = refl

port_settings-HasMembership_example :
    HasMembership uplink
      (obey_all (port_settings aruba2930f (some old_state) [] uplink) (membership_of old_uplink))
port_settings-HasMembership_example =
    port_settings-HasMembership aruba2930f (some old_state) [] uplink old_uplink uplink_known

apply_computed-AllStay_example :
    (batches : List (List Command)) × (apply_diff aruba2930f
        (some old_state)
        wanted.port_mirrors
        insertion_order
        (compute_diff orders old_state wanted true)
      ≡ some batches)
    × AllStay batches
apply_computed-AllStay_example =
    apply_computed-AllStay orders insertion_order aruba2930f old_state wanted true

-- all traps are wanted, and the switch says of each kind that it sends it
abbrev all_wanted : SnmpConfig
all_wanted = record {
  communities = [];
  trap_receivers = [];
  enabled_traps = all ∷ [];
  reads = none;
}

abbrev all_sent : SnmpConfig
all_sent = record all_wanted { enabled_traps = link_change ∷ mac_notify ∷ [] }

abbrev trap_diff : SnmpStateDiff
trap_diff = compute_snmp_diff orders.texts orders.traps all_sent all_wanted

abbrev both_on : Traps
both_on = record { mac = true; link = true }

-- then no trap is sent any more
all_traps_lost :
    traps_after (snmp_diff_commands trap_diff) both_on ≡ record { mac = false; link = false }
unfolding compute_snmp_diff traps_after snmp_diff_commands sort removed changed added insert
    trap_type_eq
all_traps_lost = refl

snmp_diff_traps_example :
    ((traps_after (snmp_diff_commands trap_diff) both_on).mac ≡ (
      (true || listed trap_diff.traps_to_enable mac_notify)
      && not (listed trap_diff.traps_to_disable mac_notify)))
    × ((traps_after (snmp_diff_commands trap_diff) both_on).link ≡ (
        (true || listed trap_diff.traps_to_enable link_change)
        && not (listed trap_diff.traps_to_disable link_change)))
snmp_diff_traps_example = snmp_diff_traps trap_diff both_on

abbrev both_tags : List ℕ
both_tags = 20 ∷ 30 ∷ 50 ∷ []

-- one trunk with two VLANs that are removed, 30 and 50
abbrev both_removed : List PortMigration
both_removed =
    record {
      port_id = codes "port1";
      vlan_being_removed = 30;
      action = remove_vlan_from_trunk (20 ∷ []);
    }
    ∷ []

both_found : find_ports_to_migrate old_state (30 ∷ 50 ∷ []) ≡ both_removed
unfolding find_ports_to_migrate migrate_port filter filter_map contains inferred_mode
both_found = refl

migration_commands-clears_example :
    contains
      (clear_all
        (codes "port1")
        (migration_commands insertion_order both_removed)
        (none, both_tags)).1
      50
    ≡ (contains both_tags 50 && not (any (clears (codes "port1") 50) both_removed))
migration_commands-clears_example =
    migration_commands-clears insertion_order both_removed (codes "port1") both_tags 50

-- it stays a member of the second
still_tagged : (contains both_tags 50 && not (any (clears (codes "port1") 50) both_removed)) ≡ true
unfolding contains any
still_tagged = refl
