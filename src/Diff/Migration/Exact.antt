-- ===== src/Diff/Migration/Exact.antt =====
-- The migrations that `find_ports_to_migrate` finds, for all ports of a switch.
use switch_configurator.Prelude.{
  ℕ, ◌≡◌, refl, sym, subst, ◌⊎◌, Bool, true, false, not, ◌&&◌, Option, none, some, List, [], ◌∷◌,
  arith, nat_eq, text_eq, ◌==◌, ==_iff, contains, filter_map, any, if◌then◌else◌, contains-filter,
  inl, inr, Bool-cases,
}
use switch_configurator.Models.Network.{Port, inferred_mode}
use switch_configurator.Models.State.{SwitchState}
use switch_configurator.Diff.Migration.{
  PortMigration, PortMigrationAction, move_access_to_vlan1, remove_vlan_from_trunk, migrate_port,
  find_ports_to_migrate,
}
use switch_configurator.Diff.Migration.Frees.{is_trunk, is_some-migrate_port, action_of}

-- Has the port one of the VLANs as a tagged one, or, where it has no tagged ones, as its untagged one?
abbrev pub on_any : Port → List ℕ → Bool
on_any port vlans =
    any (λ v. if is_trunk port then contains port.tagged_vlans v else port.vlan == v) vlans

-- An access port goes to VLAN 1; a trunk keeps exactly those of its tagged VLANs that are not removed.
abbrev pub IsRightAction : Port → List ℕ → PortMigrationAction → Type 0
IsRightAction port vlans move_access_to_vlan1 = is_trunk port ≡ false
IsRightAction port vlans (remove_vlan_from_trunk remaining) =
    (is_trunk port ≡ true)
    × ((v : ℕ) → contains remaining v ≡ (not (contains vlans v) && contains port.tagged_vlans v))

-- a migration for the port, off a VLAN that is removed and that the port is on
abbrev pub IsMigrationOf : List ℕ → PortMigration → Port → Type 0
IsMigrationOf vlans m port =
    (m.port_id ≡ port.port_id)
    × (contains vlans m.vlan_being_removed ≡ true)
    × ((if is_trunk port
          then contains port.tagged_vlans m.vlan_being_removed
          else port.vlan == m.vlan_being_removed)
        ≡ true)
    × IsRightAction port vlans m.action

vlan_of :
    (port : Port) (vlan_set vlans : List ℕ) {m : PortMigration}
    → migrate_port port vlan_set vlans ≡ some m
    → (m.port_id ≡ port.port_id)
      × (contains vlans m.vlan_being_removed ≡ true)
      × ((if is_trunk port
            then contains port.tagged_vlans m.vlan_being_removed
            else port.vlan == m.vlan_being_removed)
          ≡ true)
unfolding migrate_port inferred_mode contains
vlan_of port vlan_set [] h = ground arith
vlan_of port vlan_set (v ∷ vs) {m} h =
    let later = vlan_of port vlan_set vs {m = m} in
    (
      ground (arith, h, later),
      ground (arith, h, later, ==_iff v m.vlan_being_removed),
      ground (arith, h, later),
    )

action-IsRightAction :
    (port : Port) (vlans : List ℕ) {m : PortMigration}
    → migrate_port port vlans vlans ≡ some m
    → IsRightAction port vlans m.action
action-IsRightAction port vlans {m} h =
    let known = action_of port vlans vlans {m = m} h in
    elim (Bool-cases (is_trunk port)) [
      | inl t ↦
          subst (IsRightAction port vlans) (sym (rw t at known))
            (t, λ v. contains-filter (λ u. not (contains vlans u)) v port.tagged_vlans)
      | inr t ↦ subst (IsRightAction port vlans) (sym (rw t at known)) t
    ]

migrate_port-IsMigrationOf :
    (port : Port) (vlans : List ℕ) {m : PortMigration}
    → migrate_port port vlans vlans ≡ some m
    → IsMigrationOf vlans m port
migrate_port-IsMigrationOf port vlans {m} h =
    let (same, listed, member) = vlan_of port vlans vlans {m = m} h in
    (same, listed, member, action-IsRightAction port vlans {m = m} h)

-- Each port has its migration where it needs one, and no other.
abbrev pub AreMigrationsOf : List ℕ → List PortMigration → List Port → Type 0
AreMigrationsOf vlans ms [] = ms ≡ []
AreMigrationsOf vlans ms (p ∷ ps) =
    ((on_any p vlans ≡ false) × AreMigrationsOf vlans ms ps)
    ⊎ ((m : PortMigration) × (rest : List PortMigration) × (ms ≡ m ∷ rest)
        × (on_any p vlans ≡ true)
        × IsMigrationOf vlans m p
        × AreMigrationsOf vlans rest ps)

ports_migrated :
    (vlans : List ℕ) (ps : List Port)
    → AreMigrationsOf vlans (filter_map (λ p. migrate_port p vlans vlans) ps) ps
unfolding filter_map
ports_migrated vlans [] = refl
ports_migrated vlans (p ∷ ps) = go (ports_migrated vlans ps) (migrate_port p vlans vlans) refl
  where
    rest : List PortMigration
    rest = filter_map (λ p. migrate_port p vlans vlans) ps

    go :
        AreMigrationsOf vlans rest ps
        → (o : Option PortMigration) → migrate_port p vlans vlans ≡ o
        → AreMigrationsOf vlans (elim o [ none ↦ rest | some m ↦ m ∷ rest ]) (p ∷ ps)
    go later none e = inl (ground (arith, e, is_some-migrate_port p vlans vlans), later)
    go later (some m) e = inr (
      m,
      rest,
      refl,
      ground (arith, e, is_some-migrate_port p vlans vlans),
      migrate_port-IsMigrationOf p vlans {m = m} e,
      later,
    )

none_removed : (ps : List Port) → AreMigrationsOf [] [] ps
unfolding any
none_removed [] = refl
none_removed (p ∷ ps) = inl (refl, none_removed ps)

-- The migrations are found for the ports in their order: one for each port that has a VLAN that is removed
-- as a tagged one, or, where it has no tagged ones, as its untagged one, and none for any other port. A
-- migration has the port's id and such a VLAN; an access port is moved to VLAN 1, and a trunk is to
-- keep exactly those of its tagged VLANs that are not removed.
pub find_ports_to_migrate-AreMigrationsOf :
    (state : SwitchState) (vlans : List ℕ)
    → AreMigrationsOf vlans (find_ports_to_migrate state vlans) state.ports
unfolding find_ports_to_migrate
find_ports_to_migrate-AreMigrationsOf state [] = none_removed state.ports
find_ports_to_migrate-AreMigrationsOf state (v ∷ vs) = ports_migrated (v ∷ vs) state.ports
