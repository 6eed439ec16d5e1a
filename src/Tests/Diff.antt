-- ===== src/Tests/Diff.antt =====
-- The theorems on the difference, for the switch of the examples.
use switch_configurator.Prelude.{
  ◌≡◌, refl, ◌↔◌, true, false, not, ◌&&◌, none, [], ◌∷◌, codes, nat_eq, text_eq, ◌==◌, any,
  contains,
}
use switch_configurator.Models.State.{has_changes}
use switch_configurator.Diff.{compute_diff}
use switch_configurator.Diff.Keyed.{entry, has, distinct}
use switch_configurator.Diff.Vlans.{vlan_key, describes_vlans}
use switch_configurator.Diff.Vlans.Converges.{Reached, vlan_diff, vlans-Reached}
use switch_configurator.Diff.Ports.{port_key, ports_equivalent_for_model}
use switch_configurator.Diff.Ports.Equivalent.{essence, ports_equivalent_iff}
use switch_configurator.Diff.Migration.{find_ports_to_migrate, migrate_port}
use switch_configurator.Diff.Migration.Exact.{
  AreMigrationsOf, find_ports_to_migrate-AreMigrationsOf,
}
use switch_configurator.Diff.Migration.Frees.{uses, is_trunk, native_vlan_not_migrated}
use switch_configurator.Diff.Apply.{apply_diff, apply_vlans}
use switch_configurator.Diff.Converges.{compute_diff-converges}
use switch_configurator.Tests.Data.{
  orders, wanted, current_state, port_on, old_id, gone, trunk_port, native_port,
}

wanted_ports_distinct : distinct port_key wanted.ports ≡ true
unfolding distinct any text_eq
wanted_ports_distinct = refl

wanted_mirrors_apart :
    not (any (λ m. has port_key wanted.ports m.destination_port) wanted.port_mirrors) ≡ true
unfolding any text_eq
wanted_mirrors_apart = refl

compute_diff-converges_example :
    has_changes (
      compute_diff orders
        (apply_diff (compute_diff orders current_state wanted true) current_state)
        wanted
        true)
    ≡ false
compute_diff-converges_example =
    compute_diff-converges orders orders current_state wanted true wanted_ports_distinct
      wanted_mirrors_apart

vlans-Reached_example :
    Reached
      (describes_vlans wanted.model)
      (old_id == 1)
      (entry vlan_key old_id wanted.vlans)
      (entry vlan_key old_id current_state.vlans)
      (entry vlan_key old_id
        (apply_vlans (vlan_diff orders.ids current_state wanted) current_state.vlans))
vlans-Reached_example = vlans-Reached orders.ids current_state wanted old_id

ports_equivalent_iff_example :
    (ports_equivalent_for_model
        (port_on (codes "port1") 10 (20 ∷ []))
        (port_on (codes "port1") 10 (30 ∷ []))
        true
      ≡ true)
    ↔ (essence true (port_on (codes "port1") 10 (20 ∷ []))
        ≡ essence true (port_on (codes "port1") 10 (30 ∷ [])))
ports_equivalent_iff_example =
    ports_equivalent_iff (port_on (codes "port1") 10 (20 ∷ []))
      (port_on (codes "port1") 10 (30 ∷ [])) true

native_goes : (is_trunk native_port && contains gone old_id) ≡ true
unfolding contains
native_goes = refl

tags_stay : any (λ v. contains native_port.tagged_vlans v) gone ≡ false
unfolding any contains
tags_stay = refl

native_vlan_not_migrated_example :
    (migrate_port native_port gone gone ≡ none) × (any (uses native_port) gone ≡ true)
native_vlan_not_migrated_example = native_vlan_not_migrated native_port gone native_goes tags_stay

find_ports_to_migrate-AreMigrationsOf_example :
    AreMigrationsOf gone
      (find_ports_to_migrate (record current_state { ports = trunk_port ∷ native_port ∷ [] }) gone)
      (trunk_port ∷ native_port ∷ [])
find_ports_to_migrate-AreMigrationsOf_example =
    find_ports_to_migrate-AreMigrationsOf
      (record current_state { ports = trunk_port ∷ native_port ∷ [] }) gone
