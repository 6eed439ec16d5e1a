-- ===== src/Vendors/Aruba/Cleared.antt =====
-- What the commands of `migrate_ports_before_vlan_deletion` make of the VLANs that a port has tagged.
use switch_configurator.Prelude.{
  ℕ, ◌≡◌, refl, ap, ◌∙◌, Bool, true, false, not, ◌&&◌, ◌||◌, Option, none, some, List, [], ◌∷◌,
  ◌++◌, Text, text_eq, nat_eq, ◌==◌, ◌!=◌, ==_iff, contains, contains-filter, contains-of_count,
  contains-append, Bool-cases, inl, inr, filter, any, arith, is_some, if◌then◌else◌, unwrap_or,
}
use switch_configurator.Prelude.HashMap.{
  HashMap, HashOrder, get, insert, keys, get-insert, contains-keys,
}
use switch_configurator.Diff.Migration.{
  PortMigration, PortMigrationAction, move_access_to_vlan1, remove_vlan_from_trunk,
}
use switch_configurator.Vendors.Aruba.{Command, exit, vlan, no_untagged_ports, no_tagged_ports}
use switch_configurator.Vendors.Aruba.Generate.{each}
use switch_configurator.Vendors.Aruba.Preview.{
  Members, add_member, vlans_to_clean, unless_empty, clean_block, migration_commands,
}

-- The VLAN whose context the session is in, and the VLANs that a port has tagged, as an ArubaOS switch
-- keeps them: `no tagged`, in a VLAN's context, takes that VLAN off the ports that it names.
abbrev pub Session : Type 0
Session = Option ℕ × List ℕ

abbrev pub obey_clearing : Text → Command → Session → Session
obey_clearing port_id (vlan v) (context, tagged) = (some v, tagged)
obey_clearing port_id exit (context, tagged) = (none, tagged)
obey_clearing port_id (no_tagged_ports ports) (some v, tagged) =
    (some v, if contains ports port_id then filter (λ u. u != v) tagged else tagged)
obey_clearing port_id _ session = session

unfoldable pub clear_all : Text → List Command → Session → Session
clear_all port_id [] session = session
clear_all port_id (c ∷ cs) session = clear_all port_id cs (obey_clearing port_id c session)

clear_all-append :
    (port_id : Text) (xs ys : List Command) (s : Session)
    → clear_all port_id (xs ++ ys) s ≡ clear_all port_id ys (clear_all port_id xs s)
unfolding clear_all
clear_all-append port_id [] ys s = refl
clear_all-append port_id (x ∷ xs) ys s = clear_all-append port_id xs ys (obey_clearing port_id x s)

abbrev members_at : HashMap ℕ Members → ℕ → Members
members_at vlans v = unwrap_or (get v vlans) ([], [])

block_cleared :
    (port_id : Text) (vlans : HashMap ℕ Members) (v : ℕ) (s : Session)
    → clear_all port_id (clean_block vlans v) s
      ≡ (none, if contains (members_at vlans v).1 port_id then filter (λ u. u != v) s.1 else s.1)
unfolding clear_all contains
block_cleared port_id vlans v s = go (members_at vlans v)
  where
    go :
        (m : Members)
        → clear_all port_id
            (vlan v
              ∷ (unless_empty no_untagged_ports m.0
                  ++ unless_empty no_tagged_ports m.1
                  ++ exit ∷ []))
            s
          ≡ (none, if contains m.1 port_id then filter (λ u. u != v) s.1 else s.1)
    go ([], []) = refl
    go ([], t ∷ ts) = refl
    go (u ∷ us, []) = refl
    go (u ∷ us, t ∷ ts) = refl

cleared_step :
    (named : ℕ → Bool) (v : ℕ) (vs tagged : List ℕ) (w : ℕ)
    → (contains (if named v then filter (λ u. u != v) tagged else tagged) w
        && not (contains vs w && named w))
      ≡ (contains tagged w && not (contains (v ∷ vs) w && named w))
unfolding contains
cleared_step named v vs tagged w = elim (Bool-cases (named v)) [
  | inl h ↦ rw h (ground (arith, h, contains-filter (λ u. u != v) w tagged, ==_iff v w, ==_iff w v))
  | inr h ↦ rw h (ground (arith, h, ==_iff v w))
]

blocks_cleared :
    (port_id : Text) (vlans : HashMap ℕ Members) (vs : List ℕ) (s : Session) (w : ℕ)
    → contains (clear_all port_id (each (clean_block vlans) vs) s).1 w
      ≡ (contains s.1 w && not (contains vs w && contains (members_at vlans w).1 port_id))
unfolding each
blocks_cleared port_id vlans [] s w = unfold clear_all contains in ground arith
blocks_cleared port_id vlans (v ∷ vs) s w =
    ap (λ (r : Session). contains r.1 w)
      (clear_all-append port_id (clean_block vlans v) (each (clean_block vlans) vs) s
        ∙ ap (clear_all port_id (each (clean_block vlans) vs)) (block_cleared port_id vlans v s))
    ∙ blocks_cleared port_id vlans vs
        (none, if contains (members_at vlans v).1 port_id then filter (λ u. u != v) s.1 else s.1) w
    ∙ cleared_step (λ u. contains (members_at vlans u).1 port_id) v vs s.1 w

-- Is a migration one of the port, as a trunk?
abbrev clears_tag : Text → Text → PortMigrationAction → Bool
clears_tag port_id id move_access_to_vlan1 = false
clears_tag port_id id (remove_vlan_from_trunk remaining) = id == port_id

-- a migration of the port, a trunk, off the VLAN
abbrev pub clears : Text → ℕ → PortMigration → Bool
clears port_id v m = m.vlan_being_removed == v && clears_tag port_id m.port_id m.action

contains-add_member :
    (port_id : Text) (m : PortMigration) (members : Members)
    → contains (add_member m members).1 port_id
      ≡ (contains members.1 port_id || clears_tag port_id m.port_id m.action)
contains-add_member port_id m members = go m.action
  where
    go :
        (action : PortMigrationAction)
        → contains (add_member (record m { action = action }) members).1 port_id
          ≡ (contains members.1 port_id || clears_tag port_id m.port_id action)
    go move_access_to_vlan1 = ground arith
    go (remove_vlan_from_trunk remaining) =
        unfold contains in ground (arith, contains-append members.1 (m.port_id ∷ []) port_id)

members_at-insert :
    (k v : ℕ) (members : Members) (vlans : HashMap ℕ Members)
    → members_at (insert k members vlans) v ≡ (if k == v then members else members_at vlans v)
members_at-insert k v members vlans =
    ap (λ o. unwrap_or o ([], [])) (get-insert k v members vlans) ∙ go (k == v)
  where
    go :
        (b : Bool)
        → unwrap_or (if b then some members else get v vlans) ([], [])
          ≡ (if b then members else members_at vlans v)
    go true = refl
    go false = refl

members_collected :
    (port_id : Text) (v : ℕ) (vlans : HashMap ℕ Members) (ms : List PortMigration)
    → contains (members_at (vlans_to_clean vlans ms) v).1 port_id
      ≡ (contains (members_at vlans v).1 port_id || any (clears port_id v) ms)
unfolding vlans_to_clean any
members_collected port_id v vlans [] = ground arith
members_collected port_id v vlans (m ∷ ms) =
    let here = m.vlan_being_removed in
    let next = insert here (add_member m (members_at vlans here)) vlans in
    members_collected port_id v next ms ∙ added
  where
    added :
        (contains
            (members_at
              (insert m.vlan_being_removed
                (add_member m (members_at vlans m.vlan_being_removed))
                vlans)
              v).1
            port_id
          || any (clears port_id v) ms)
        ≡ (contains (members_at vlans v).1 port_id
            || (clears port_id v m || any (clears port_id v) ms))
    added = elim (Bool-cases (m.vlan_being_removed == v)) [
      | inl here ↦
          let same : m.vlan_being_removed ≡ v = (==_iff m.vlan_being_removed v).0 here in
          rw
            (
              members_at-insert m.vlan_being_removed v
                  (add_member m (members_at vlans m.vlan_being_removed)) vlans,
              here,
              contains-add_member port_id m (members_at vlans m.vlan_being_removed),
            )
            (ground (arith, ap (λ u. contains (members_at vlans u).1 port_id) same))
      | inr there ↦
          rw
            (
              members_at-insert m.vlan_being_removed v
                  (add_member m (members_at vlans m.vlan_being_removed)) vlans,
              there,
            )
            refl
    ]

-- each VLAN that has members is visited
visited :
    (order : HashOrder ℕ) (vlans : HashMap ℕ Members) (port_id : Text) (v : ℕ)
    → (contains (order.visit (keys vlans)) v && contains (members_at vlans v).1 port_id)
      ≡ contains (members_at vlans v).1 port_id
visited order vlans port_id v =
    rw
      (
        contains-of_count v (order.visit (keys vlans)) (keys vlans)
            (order.visits_each v (keys vlans)),
        contains-keys v vlans,
      )
      (go (get v vlans))
  where
    go :
        (o : Option Members)
        → (is_some o && contains (unwrap_or o ([], [])).1 port_id)
          ≡ contains (unwrap_or o ([], [])).1 port_id
    go none = unfold contains in refl
    go (some m) = ground arith

-- Whatever migrations the driver is given, and in whatever order it visits the VLANs: once the switch has
-- obeyed the commands, exactly those of a port's tagged VLANs are gone that a migration of the port, as
-- a trunk, names as the VLAN that is removed. The VLANs that a migration lists as remaining have no effect.
pub migration_commands-clears :
    (order : HashOrder ℕ) (ms : List PortMigration) (port_id : Text) (tagged : List ℕ) (v : ℕ)
    → contains (clear_all port_id (migration_commands order ms) (none, tagged)).1 v
      ≡ (contains tagged v && not (any (clears port_id v) ms))
unfolding migration_commands clear_all
migration_commands-clears order ms port_id tagged v =
    let vlans = vlans_to_clean [] ms in
    let blocks = each (clean_block vlans) (order.visit (keys vlans)) in
    ap (λ (r : Session). contains r.1 v)
      (clear_all-append port_id blocks (exit ∷ []) (none, tagged))
    ∙ blocks_cleared port_id vlans (order.visit (keys vlans)) (none, tagged) v
    ∙ ap (λ b. contains tagged v && not b)
        (visited order vlans port_id v ∙ members_collected port_id v [] ms ∙ none_before)
  where
    none_before :
        (contains (members_at [] v).1 port_id || any (clears port_id v) ms)
        ≡ any (clears port_id v) ms
    none_before = unfold get contains in refl
