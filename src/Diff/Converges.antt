-- ===== src/Diff/Converges.antt =====
-- `compute_diff` against a switch that carries the difference out: one turn is enough.
use switch_configurator.Prelude.{
  ◌≡◌, refl, Bool, true, false, not, ◌&&◌, List, [], ◌∷◌, arith, text_eq, nat_eq, ◌==◌, Text, map,
  contains, any, ==_iff, is_some-find_last,
}
use switch_configurator.Prelude.HashMap.{collect, get, get-collect}
use switch_configurator.Models.Network.{PortMirror, option_id_eq, Port}
use switch_configurator.Models.SwitchConfig.{SwitchConfig}
use switch_configurator.Models.State.{SwitchState, empty_diff, has_changes}
use switch_configurator.SnmpReads.{effective_snmp}
use switch_configurator.Diff.{Orders, compute_diff, diff_management_vlan}
use switch_configurator.Diff.Keyed.{entry, has, distinct, entry-filter-distinct}
use switch_configurator.Diff.Vlans.{diff_vlans}
use switch_configurator.Diff.Vlans.Converges.{vlans_converge}
use switch_configurator.Diff.Ports.{port_key, diff_ports, needs_reset, needs_config}
use switch_configurator.Diff.Ports.Converges.{
  ports_settle, ports_after, entry-ports_after, destinations, contains-to_reset, poe,
}
use switch_configurator.Diff.Mirrors.{diff_mirrors, needs_baseline, dest_ports_to_configure}
use switch_configurator.Diff.Mirrors.Converges.{mirrors_settle, contains-dest_ports, baseline_lem}
use switch_configurator.Diff.Snmp.{diff_snmp, snmp_difference}
use switch_configurator.Diff.Snmp.Converges.{snmp_settles, quiet}
use switch_configurator.Diff.Apply.{apply_diff}

-- no mirror's destination is configured as a regular port
abbrev pub mirrors_apart : SwitchConfig → Bool
mirrors_apart desired =
    not (any (λ m. has port_key desired.ports m.destination_port) desired.port_mirrors)

apart_at :
    (ports : List Port) (mirrors : List PortMirror) (k : Text)
    → any (λ m. has port_key ports m.destination_port) mirrors ≡ false
    → contains (map (λ m. m.destination_port) mirrors) k ≡ true
    → has port_key ports k ≡ false
unfolding any contains
apart_at ports [] k h c = ground arith
apart_at ports (m ∷ ms) k h c = ground (arith, apart_at ports ms k, ==_iff m.destination_port k)

-- the SNMP and management parts, on a switch where the others find nothing
rest_quiet :
    (o : Orders) (after : SwitchState) (desired : SwitchConfig)
    → quiet (snmp_difference o.texts o.traps after.snmp (effective_snmp desired)) ≡ true
    → after.management_vlan ≡ desired.management_vlan
    → has_changes
        (diff_management_vlan after desired (diff_snmp o.texts o.traps after desired empty_diff))
      ≡ false
unfolding has_changes diff_management_vlan diff_snmp
rest_quiet o after desired q m =
    ground (arith, ==_iff after.management_vlan desired.management_vlan)

module _ (o o' : Orders) (current : SwitchState) (desired : SwitchConfig) (enforce : Bool)
    (unique : distinct port_key desired.ports ≡ true) (apart : mirrors_apart desired ≡ true) where
  abbrev after : SwitchState
  after = apply_diff (compute_diff o current desired enforce) current

  abbrev bases : List Text
  bases = dest_ports_to_configure (collect port_key current.ports) [] desired.port_mirrors

  apart_from_ports :
      (k : Text) → contains (destinations desired) k ≡ true → has port_key desired.ports k ≡ false
  apart_from_ports k = apart_at desired.ports desired.port_mirrors k (ground arith)

  contains-bases :
      (k : Text)
      → contains bases k
        ≡ (contains (destinations desired) k && needs_baseline (entry port_key k current.ports))
  unfolding contains
  contains-bases k = ground (
    arith,
    contains-dest_ports (collect port_key current.ports) [] desired.port_mirrors k,
    get-collect port_key k current.ports,
  )

  -- every mirror's destination is at the baseline now
  based :
      (k : Text)
      → contains (destinations desired) k ≡ true
      → needs_baseline (entry port_key k (ports_after o.texts current desired enforce bases))
        ≡ false
  unfolding needs_baseline needs_reset
  based k h = ground (
    arith,
    entry-ports_after o.texts current desired enforce bases k,
    contains-bases k,
    apart_from_ports k,
    contains-to_reset o.texts current desired enforce k,
    baseline_lem k,
    entry-filter-distinct port_key
        (λ q.
          needs_config (poe o.texts current desired enforce)
            (get q.port_id (collect port_key current.ports)) q)
        k desired.ports unique,
    is_some-find_last (λ (q : Port). q.port_id == k) desired.ports,
  )

  vlans_quiet : diff_vlans o'.ids after desired empty_diff ≡ empty_diff
  unfolding apply_diff compute_diff diff_management_vlan diff_vlans diff_ports diff_mirrors
      diff_snmp
  vlans_quiet = vlans_converge o.ids current desired o'.ids after empty_diff refl

  after_ports : after.ports ≡ ports_after o.texts current desired enforce bases
  unfolding apply_diff compute_diff diff_management_vlan diff_vlans diff_ports diff_mirrors
      diff_snmp
  after_ports = refl

  ports_quiet : diff_ports o'.texts after desired enforce empty_diff ≡ empty_diff
  ports_quiet =
      ports_settle o.texts current desired enforce bases unique
        (λ k h. ground (arith, contains-bases k)) apart_from_ports o'.texts after empty_diff
        after_ports

  mirrors_quiet : diff_mirrors o'.texts after desired empty_diff ≡ empty_diff
  unfolding apply_diff compute_diff diff_management_vlan diff_vlans diff_ports diff_mirrors
      diff_snmp
  mirrors_quiet =
      mirrors_settle o.texts current desired o'.texts after empty_diff refl
        (λ k h. rw after_ports (based k h))

  snmp_quiet : quiet (snmp_difference o'.texts o'.traps after.snmp (effective_snmp desired)) ≡ true
  unfolding apply_diff compute_diff diff_management_vlan diff_vlans diff_ports diff_mirrors
      diff_snmp
  snmp_quiet = snmp_settles o.texts o'.texts o.traps o'.traps current.snmp (effective_snmp desired)

  management_reached : after.management_vlan ≡ desired.management_vlan
  unfolding apply_diff compute_diff diff_management_vlan diff_vlans diff_ports diff_mirrors
      diff_snmp
  management_reached = ground (arith, ==_iff current.management_vlan desired.management_vlan)

  -- Whatever a switch has, once it has carried out the difference to the wanted configuration, the
  -- next difference is empty: no VLAN, port, mirror, SNMP or management change is left. The wanted
  -- ports have distinct ids, and no mirror's destination is one of them. Both differences may visit
  -- the tables in any order, and ports that are not wanted may be reset or not.
  pub compute_diff-converges : has_changes (compute_diff o' after desired enforce) ≡ false
  unfolding compute_diff
  compute_diff-converges =
      rw (vlans_quiet, ports_quiet, mirrors_quiet)
        (rest_quiet o' after desired snmp_quiet management_reached)
