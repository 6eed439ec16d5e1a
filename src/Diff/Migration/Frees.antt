-- ===== src/Diff/Migration/Frees.antt =====
-- What `find_ports_to_migrate` finds for one port, and what it does not find.
use switch_configurator.Prelude.{
  ℕ, ◌≡◌, refl, Bool, true, false, not, ◌&&◌, ◌||◌, Option, none, some, List, [], ◌∷◌, arith,
  nat_eq, ◌==◌, contains, filter, any, is_some, is_empty, if◌then◌else◌, ==_iff,
}
use switch_configurator.Models.Network.{Port, inferred_mode}
use switch_configurator.Diff.Migration.{
  PortMigration, move_access_to_vlan1, remove_vlan_from_trunk, migrate_port,
}

-- Is the port a member of the VLAN, untagged or tagged?
abbrev pub uses : Port → ℕ → Bool
uses port v = port.vlan == v || contains port.tagged_vlans v

abbrev pub is_trunk : Port → Bool
is_trunk port = not (is_empty port.tagged_vlans)

-- A port is migrated exactly if one of the VLANs that are removed is its untagged one, for a port with no
-- tagged VLANs, or one of its tagged ones, for a trunk.
pub is_some-migrate_port :
    (port : Port) (vlan_set vlans : List ℕ)
    → is_some (migrate_port port vlan_set vlans)
      ≡ any (λ v. if is_trunk port then contains port.tagged_vlans v else port.vlan == v) vlans
unfolding migrate_port any inferred_mode
is_some-migrate_port port vlan_set [] = refl
is_some-migrate_port port vlan_set (v ∷ vs) = ground (arith, is_some-migrate_port port vlan_set vs)

-- the action that is taken, if any
pub action_of :
    (port : Port) (vlan_set vlans : List ℕ) {m : PortMigration}
    → migrate_port port vlan_set vlans ≡ some m
    → m.action ≡ (
        if is_trunk port
        then remove_vlan_from_trunk (filter (λ v. not (contains vlan_set v)) port.tagged_vlans)
        else move_access_to_vlan1)
unfolding migrate_port inferred_mode
action_of port vlan_set [] h = ground arith
action_of port vlan_set (v ∷ vs) {m} h = ground (arith, action_of port vlan_set vs {m = m})

any-contains :
    (p : ℕ → Bool) (vs : List ℕ) (v : ℕ) → contains vs v ≡ true → p v ≡ true → any p vs ≡ true
unfolding any contains
any-contains p [] v c h = ground arith
any-contains p (u ∷ us) v c h = ground (arith, any-contains p us v, ==_iff u v)

trunk_any :
    (port : Port) (vlans : List ℕ)
    → is_trunk port ≡ true
    → any (λ v. if is_trunk port then contains port.tagged_vlans v else port.vlan == v) vlans
      ≡ any (λ v. contains port.tagged_vlans v) vlans
trunk_any port vlans h = rw h

-- A trunk whose untagged VLAN is removed, and none of its tagged ones, is not found for migration, though
-- it is a member of a VLAN that is removed.
pub native_vlan_not_migrated :
    (port : Port) (vlans : List ℕ)
    → (is_trunk port && contains vlans port.vlan) ≡ true
    → any (λ v. contains port.tagged_vlans v) vlans ≡ false
    → (migrate_port port vlans vlans ≡ none) × (any (uses port) vlans ≡ true)
native_vlan_not_migrated port vlans h k = (
  go (migrate_port port vlans vlans) refl,
  any-contains (uses port) vlans port.vlan (ground arith)
      (ground (arith, ==_iff port.vlan port.vlan)),
)
  where
    go :
        (o : Option PortMigration)
        → migrate_port port vlans vlans ≡ o
        → migrate_port port vlans vlans ≡ none
    go none q = q
    go (some m) q =
        ground
          (arith, q, is_some-migrate_port port vlans vlans, k, trunk_any port vlans (ground arith))
