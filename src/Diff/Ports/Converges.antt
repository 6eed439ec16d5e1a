-- ===== src/Diff/Ports/Converges.antt =====
-- `diff_ports` against a switch that carries it out.
use switch_configurator.Models.State.{StateDiff}
use switch_configurator.Prelude.{
  inl, inr, append-nil, Bool-cases, All-map, filter_none, ◌≡◌, refl, Bool, true, false, not, ◌&&◌,
  none, some, List, [], ◌∷◌, ◌++◌, arith, nat_eq, text_eq, ◌==◌, Text, map, contains, filter,
  or_option, if◌then◌else◌, contains-filter, ==_refl, ==_iff, find_last, find_last-append,
  is_some-find_last,
}
use switch_configurator.Prelude.HashMap.{HashOrder, collect, get, get-collect}
use switch_configurator.Models.Network.{Port, access, port_mode_eq, inferred_mode}
use switch_configurator.Models.SwitchConfig.{SwitchConfig}
use switch_configurator.Models.State.{SwitchState}
use switch_configurator.Diff.Keyed.{
  entry_of_distinct, none_of_contains, removed, entry, has, contains-removed, distinct,
  entry-filter-distinct,
}
use switch_configurator.Diff.Keyed.Settled.{carry_out, entry-carry_out}
use switch_configurator.Diff.Ports.{
  StateDiff, diff_ports, port_key, needs_config, needs_reset, powers_ports,
  is_port_in_default_state,
}
use switch_configurator.Diff.Ports.Equivalent.{ports_equivalent_refl}
use switch_configurator.Diff.Apply.{default_port, baseline_port}

-- A port that was reset is in the default state.
default_port_lem : (k : Text) → is_port_in_default_state (default_port k) ≡ true
unfolding is_port_in_default_state inferred_mode
default_port_lem k = ground (arith, ==_refl access)

-- a list of ports that are made from their names
entry-map :
    (make : Text → Port)
    → ((k : Text) → (make k).port_id ≡ k)
    → (k : Text) (ks : List Text)
    → entry port_key k (map make ks) ≡ (if contains ks k then some (make k) else none)
unfolding find_last contains
entry-map make named k [] = refl
entry-map make named k (j ∷ ks) = ground (arith, entry-map make named k ks, named j, ==_iff j k)

contains-nil : (k : Text) → contains [] k ≡ false
unfolding contains
contains-nil k = refl

entry-nil : (k : Text) → entry port_key k [] ≡ none
unfolding find_last
entry-nil k = refl

abbrev pub destinations : SwitchConfig → List Text
destinations desired = map (λ m. m.destination_port) desired.port_mirrors

module _ (order : HashOrder Text) (current : SwitchState) (desired : SwitchConfig)
    (enforce : Bool) where
  abbrev pub poe : Bool
  poe = powers_ports desired.model

  abbrev pub to_configure : List Port
  to_configure =
      filter (λ p. needs_config poe (get p.port_id (collect port_key current.ports)) p)
        desired.ports

  abbrev pub to_reset : List Text
  to_reset =
      if enforce
      then filter
          (λ k. needs_reset (destinations desired) (get k (collect port_key current.ports)) k)
          (removed port_key order current.ports desired.ports)
      else []

  pub contains-to_reset :
      (k : Text)
      → contains to_reset k ≡ (
          enforce
          && (needs_reset (destinations desired) (entry port_key k current.ports) k
              && (has port_key current.ports k && not (has port_key desired.ports k))))
  unfolding contains
  contains-to_reset k = ground (
    arith,
    contains-filter
        (λ j. needs_reset (destinations desired) (get j (collect port_key current.ports)) j) k
        (removed port_key order current.ports desired.ports),
    contains-removed port_key order current.ports desired.ports k,
    get-collect port_key k current.ports,
  )

  -- `bases` are the mirror destinations that are set to the baseline in the same turn.
  module _ (bases : List Text) where
    abbrev pub ports_after : List Port
    ports_after =
        carry_out port_key []
          (map default_port to_reset ++ (map baseline_port bases ++ to_configure)) [] current.ports

    pub entry-ports_after :
        (k : Text)
        → entry port_key k ports_after
          ≡ or_option (entry port_key k to_configure) (
              or_option (if contains bases k then some (baseline_port k) else none) (
                if contains to_reset k
                then some (default_port k)
                else entry port_key k current.ports))
    entry-ports_after k =
        let resets = map default_port to_reset in
        let baselines = map baseline_port bases in
        ground (
          arith,
          entry-carry_out port_key [] (resets ++ (baselines ++ to_configure)) [] current.ports k,
          contains-nil k,
          entry-nil k,
          find_last-append (λ (p : Port). p.port_id == k) resets (baselines ++ to_configure),
          find_last-append (λ (p : Port). p.port_id == k) baselines to_configure,
          entry-map default_port (λ j. refl) k to_reset,
          entry-map baseline_port (λ j. refl) k bases,
        )

    module _ (unique : distinct port_key desired.ports ≡ true)
        (bases_are_destinations : (k : Text)
          → contains bases k ≡ true
          → contains (destinations desired) k ≡ true)
        (apart : (k : Text)
          → contains (destinations desired) k ≡ true
          → has port_key desired.ports k ≡ false) where
      -- a wanted port is now as it is wanted
      configured :
          (p : Port)
          → entry port_key p.port_id desired.ports ≡ some p
          → needs_config poe (entry port_key p.port_id ports_after) p ≡ false
      unfolding needs_config
      configured p h =
          let k = p.port_id in
          ground (
            arith,
            h,
            entry-ports_after k,
            entry-filter-distinct port_key
                (λ q. needs_config poe (get q.port_id (collect port_key current.ports)) q) k
                desired.ports unique,
            get-collect port_key k current.ports,
            contains-to_reset k,
            is_some-find_last (λ (q : Port). q.port_id == k) desired.ports,
            bases_are_destinations k,
            apart k,
            ports_equivalent_refl p poe,
          )

      -- a port that is not wanted has been reset if it had to be
      reset :
          (k : Text)
          → enforce ≡ true
          → has port_key desired.ports k ≡ false
          → has port_key ports_after k ≡ true
          → needs_reset (destinations desired) (entry port_key k ports_after) k ≡ false
      unfolding needs_reset
      reset k on unwanted there = ground (
        arith,
        entry-ports_after k,
        entry-filter-distinct port_key
            (λ q. needs_config poe (get q.port_id (collect port_key current.ports)) q) k
            desired.ports unique,
        contains-to_reset k,
        is_some-find_last (λ (q : Port). q.port_id == k) desired.ports,
        is_some-find_last (λ (q : Port). q.port_id == k) current.ports,
        is_some-find_last (λ (q : Port). q.port_id == k) ports_after,
        bases_are_destinations k,
        default_port_lem k,
      )

      module _ (order' : HashOrder Text) where
        nothing_to_configure :
            filter
              (λ p. needs_config poe (get p.port_id (collect port_key ports_after)) p)
              desired.ports
            ≡ []
        nothing_to_configure =
            filter_none (λ p. needs_config poe (get p.port_id (collect port_key ports_after)) p)
              desired.ports
              (All-map (λ p. entry port_key p.port_id desired.ports ≡ some p)
                (λ p. needs_config poe (get p.port_id (collect port_key ports_after)) p ≡ false)
                (λ p h. rw (get-collect port_key p.port_id ports_after) (configured p h))
                desired.ports (entry_of_distinct port_key desired.ports unique))

        nothing_to_reset :
            enforce ≡ true
            → filter
                (λ k. needs_reset (destinations desired) (get k (collect port_key ports_after)) k)
                (removed port_key order' ports_after desired.ports)
              ≡ []
        nothing_to_reset on =
            none_of_contains
              (filter
                (λ k. needs_reset (destinations desired) (get k (collect port_key ports_after)) k)
                (removed port_key order' ports_after desired.ports))
              λ k. ground (
                arith,
                contains-filter
                    (λ j.
                      needs_reset (destinations desired) (get j (collect port_key ports_after)) j)
                    k (removed port_key order' ports_after desired.ports),
                contains-removed port_key order' ports_after desired.ports k,
                get-collect port_key k ports_after,
                reset k on,
              )

        pub ports_settle :
            (after : SwitchState) (diff : StateDiff)
            → after.ports ≡ ports_after
            → diff_ports order' after desired enforce diff ≡ diff
        unfolding diff_ports
        ports_settle after diff h = elim (Bool-cases enforce) [
          | inl on ↦ rw (h, nothing_to_configure, nothing_to_reset on, on, append-nil, append-nil)
          | inr off ↦ rw (h, nothing_to_configure, off, append-nil, append-nil)
        ]
