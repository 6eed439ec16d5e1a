-- ===== src/Diff/Mirrors/Converges.antt =====
-- `diff_mirrors` against a switch that carries it out.
use switch_configurator.Prelude.{
  ◌≡◌, Bool, true, false, not, ◌&&◌, List, [], ◌∷◌, arith, nat_eq, text_eq, ◌==◌, Text, map,
  contains, ==_refl, ==_iff, append-nil,
}
use switch_configurator.Prelude.HashMap.{HashMap, HashOrder, collect, get, get-collect}
use switch_configurator.Models.Network.{
  Port, PortMirror, access, port_mode_eq, port_mirror_eq, inferred_mode,
}
use switch_configurator.Models.SwitchConfig.{SwitchConfig}
use switch_configurator.Models.State.{SwitchState, StateDiff, empty_diff}
use switch_configurator.Diff.Keyed.{
  added, removed, changed, entry, entry-added, contains-removed, entry-changed, none_of_contains,
}
use switch_configurator.Diff.Keyed.Settled.{
  Listed, added-settled, kept-settled, changed-settled, removed_of_kept,
}
use switch_configurator.Diff.Ports.{port_key}
use switch_configurator.Diff.Mirrors.{
  mirror_key, needs_baseline, is_baseline, dest_ports_to_configure, diff_mirrors,
}
use switch_configurator.Diff.Apply.{baseline_port, apply_mirrors}

-- A port is listed for the baseline exactly if it has not been seen before, is some mirror's destination
-- and is not known to be at the baseline: unknown to the switch, or configured otherwise.
pub contains-dest_ports :
    (ports : HashMap Text Port) (seen : List Text) (mirrors : List PortMirror) (k : Text)
    → contains (dest_ports_to_configure ports seen mirrors) k ≡ (
        not (contains seen k)
        && (contains (map (λ m. m.destination_port) mirrors) k && needs_baseline (get k ports)))
unfolding dest_ports_to_configure contains
contains-dest_ports ports seen [] k = ground arith
contains-dest_ports ports seen (m ∷ ms) k =
    let dest = m.destination_port in
    ground (
      arith,
      contains-dest_ports ports seen ms k,
      contains-dest_ports ports (dest ∷ seen) ms k,
      ==_iff dest k,
    )

pub baseline_lem : (k : Text) → is_baseline (baseline_port k) ≡ true
unfolding is_baseline inferred_mode
baseline_lem k = ground (arith, ==_refl access)

module _ (order : HashOrder Text) (current : SwitchState) (desired : SwitchConfig) where
  abbrev same : PortMirror → PortMirror → Bool
  same c d = c == d

  listed :
      Listed mirror_key same
        (λ k. false)
        current.port_mirrors
        desired.port_mirrors
        (added mirror_key order current.port_mirrors desired.port_mirrors)
        (changed mirror_key order same current.port_mirrors desired.port_mirrors)
        (removed mirror_key order current.port_mirrors desired.port_mirrors)
  listed = record {
    news_at = entry-added mirror_key order current.port_mirrors desired.port_mirrors;
    updates_at = entry-changed mirror_key order current.port_mirrors desired.port_mirrors same;
    gone_at = contains-removed mirror_key order current.port_mirrors desired.port_mirrors;
  }

  abbrev pub mirror_diff : StateDiff
  mirror_diff = diff_mirrors order current desired empty_diff

  no_destination_left :
      (ports : List Port)
      → ((k : Text)
          → contains (map (λ m. m.destination_port) desired.port_mirrors) k ≡ true
          → needs_baseline (entry port_key k ports) ≡ false)
      → dest_ports_to_configure (collect port_key ports) [] desired.port_mirrors ≡ []
  no_destination_left ports based =
      none_of_contains (dest_ports_to_configure (collect port_key ports) [] desired.port_mirrors)
        λ k. ground (
          arith,
          contains-dest_ports (collect port_key ports) [] desired.port_mirrors k,
          get-collect port_key k ports,
          based k,
        )

  pub mirrors_settle :
      (order' : HashOrder Text) (after : SwitchState) (diff : StateDiff)
      → after.port_mirrors ≡ apply_mirrors mirror_diff current.port_mirrors
      → ((k : Text)
          → contains (map (λ m. m.destination_port) desired.port_mirrors) k ≡ true
          → needs_baseline (entry port_key k after.ports) ≡ false)
      → diff_mirrors order' after desired diff ≡ diff
  unfolding diff_mirrors
  mirrors_settle order' after diff h based =
      let l = listed in
      rw (
        h,
        added-settled l order',
        removed_of_kept mirror_key order' (apply_mirrors mirror_diff current.port_mirrors)
            desired.port_mirrors (kept-settled l order'),
        changed-settled l order' (λ m. ==_refl m),
        no_destination_left after.ports based,
        append-nil,
        append-nil,
        append-nil,
        append-nil,
      )
