-- ===== src/Tests/Config.antt =====
-- The theorems on configurations, for the switch of the examples and its sources.
use switch_configurator.Secrets.{
  use_secret, secret_of, resolve_community, resolve_reads, resolve_list, resolve_snmp,
  resolve_switch, resolve_snmp_secrets,
}
use switch_configurator.Config.Merge.Table.{into_values, insert_items}
use switch_configurator.SnmpReads.{reads_enabled}
use switch_configurator.Models.Snmp.{snmp_reads_mode_eq, has_reference}
use switch_configurator.Config.Snmp.{
  numbered_communities, check_vendor_support, check_source, labelled_communities, check_sources,
  check_snmp_secret_sources,
}
use switch_configurator.Models.Hardware.{
  switch_model_eq, vendor, implicit_vlans, speed_duplex_eq, supports_speed, max_vlan_name_length,
}
use switch_configurator.Prelude.{
  Pairwise, if◌then◌else◌, filter, contains, ◌≡◌, refl, ℕ, true, false, none, some, List, [], ◌∷◌,
  ◌++◌, codes, nat_eq, text_eq, ◌==◌, any, is_some, All, arith, leb,
}
use switch_configurator.Prelude.HashMap.{or_insert, insert, get}
use switch_configurator.Prelude.Sort.{insert_sorted, sort, IsSorted}
use switch_configurator.Prelude.Decimal.{
  print_fuel, parse_unsigned, parse_digits, digits_value, to_string,
}
use switch_configurator.Prelude.Str.{
  text_le, trim_start_by, trim_end_by, utf8_len, is_whitespace, split, split_once, trim,
}
use switch_configurator.Models.Network.{Vlan}
use switch_configurator.Models.SwitchConfig.{SwitchConfig}
use switch_configurator.Models.State.{has_changes}
use switch_configurator.Diff.{compute_diff}
use switch_configurator.Diff.Keyed.{entry, distinct}
use switch_configurator.Diff.Apply.{apply_diff}
use switch_configurator.Config.Result.{ok}
use switch_configurator.Config.PortRange.{
  suffix_number, range_ids, expand_mirror, split_suffix, extract_number_suffix, parse_range,
  expand_port, expand_port_ranges, segment_ids, parse_segment, concat_map, parse_port_id, numbered,
}
use switch_configurator.Config.PortRange.Expands.{IsPlain, parse_port_id-range}
use switch_configurator.Config.Names.{
  resolve_refs, resolve_ref, names_into, resolve_tagged, resolve_untagged, resolve_port,
  resolve_ports, ambiguous_from, find_ambiguous_vlan_name, name_to_id, resolve_vlan_names,
}
use switch_configurator.Config.Names.Resolved.{named, name_to_id_exact, find_ambiguous_sound}
use switch_configurator.Config.References.{
  validate_vlan_references, filter_tags, mirrors_have_errors, defined_vlans, port_has_errors,
  check_vlan_name, check_vlan_names, validate_vlan_references_inner,
}
use switch_configurator.Config.References.Checked.{Checked, validate_references-Checked}
use switch_configurator.Config.Overlay.{
  valid_vlans, check_vlan_ids, check_tags, check_references, check_port_vlans, check_port_ids,
  check_expanded, check_destinations, validate_overlay_config,
}
use switch_configurator.Config.Overlay.Accepted.{Accepted, validate_overlay_config-Accepted}
use switch_configurator.Config.Merge.{
  ConfigWithMetadata, conflict_with, identity_conflicts, reference, get_missing_required_fields,
  merge_snmp_configs, merge_snmp_from, first_validation, note_sources, sources_of, insert_configs,
  merge_identity, merge_sorted, by_priority, merge_single_switch, validate_switch_identity, vlan_id,
  port_id_of, session_id_of,
}
use switch_configurator.Config.Merge.Wins.{
  merge, first_of, second_of, first_with, merged_vlan, merged_port, merged_distinct_ids,
}
use switch_configurator.Config.Names.Meant.{IsMeant, resolve_vlan_names-IsMeant}
use switch_configurator.Config.Merge.Snmp.{first_list, first_reads, merge_snmp_configs_lem}
use switch_configurator.Config.Merge.Identity.{
  AgreesWith, merged_switch, merged_identity, merged_management_vlan,
}
use switch_configurator.Config.Validate.{
  validate_has_vlans, check_vlans, validate_required_fields, check_merged,
}
use switch_configurator.Config.Validate.Runs.{merged_switch_converges}
use switch_configurator.Tests.Data.{
  monitoring, orders, wanted, submitted, current_state, port_on, sources, office, voice, vlan_named,
}

port-IsPlain : All IsPlain (codes "port")
unfolding is_whitespace
port-IsPlain = (plain, (plain, (plain, (plain, tt))))
  where
    plain : (false ≡ false) × (false ≡ false) × (false ≡ false)
    plain = (refl, refl, refl)

parse_port_id-range_example :
    parse_port_id ((codes "port" ++ to_string 1) ++ b'-' ∷ to_string 24)
    ≡ ok (numbered (codes "port") 1 24)
parse_port_id-range_example =
    parse_port_id-range (codes "port") port-IsPlain refl 1 24 (omega arith) (omega arith)

two_ports : parse_port_id (codes "1,7") ≡ ok (codes "1" ∷ codes "7" ∷ [])
unfolding parse_port_id concat_map parse_segment segment_ids split trim split_once
two_ports = refl

clear_names : find_ambiguous_vlan_name (office ∷ voice ∷ []) ≡ none
unfolding find_ambiguous_vlan_name ambiguous_from get insert text_eq
clear_names = refl

name_to_id_exact_example :
    All (λ v. get v.name (name_to_id (office ∷ voice ∷ [])) ≡ some v.id) (office ∷ voice ∷ [])
name_to_id_exact_example = name_to_id_exact (office ∷ voice ∷ []) clear_names

abbrev twins : List Vlan
twins = office ∷ vlan_named 40 (codes "Office") ∷ []

twins_found : find_ambiguous_vlan_name twins ≡ some (codes "Office", 10, 40)
unfolding find_ambiguous_vlan_name ambiguous_from get insert text_eq
twins_found = refl

find_ambiguous_sound_example :
    ((◌==◌ {A = ℕ} 10 40) ≡ false)
    × (named (codes "Office") 10 twins ≡ true)
    × (named (codes "Office") 40 twins ≡ true)
find_ambiguous_sound_example = find_ambiguous_sound twins (codes "Office") 10 40 twins_found

-- a switch whose first port calls its VLAN by the name
abbrev by_name : SwitchConfig
by_name = record wanted {
  ports = record (port_on (codes "port1") 1 []) { vlan_name = some (codes "Office") } ∷ [];
}

abbrev by_id : SwitchConfig
by_id = record wanted { ports = port_on (codes "port1") 10 [] ∷ [] }

by_name_resolves : resolve_vlan_names by_name false ≡ ok by_id
unfolding resolve_vlan_names find_ambiguous_vlan_name get insert text_eq resolve_ports resolve_port
    resolve_untagged name_to_id resolve_tagged
by_name_resolves = refl

resolve_vlan_names-IsMeant_example :
    Pairwise (IsMeant by_name.vlans) by_name.ports by_id.ports
    × (by_id.vlans ≡ by_name.vlans)
    × (by_id.port_mirrors ≡ by_name.port_mirrors)
    × (find_ambiguous_vlan_name by_name.vlans ≡ none)
resolve_vlan_names-IsMeant_example = resolve_vlan_names-IsMeant by_name false by_name_resolves

-- a port with a tagged VLAN that does not exist
abbrev dangling : SwitchConfig
dangling = record wanted { ports = port_on (codes "port1") 10 (20 ∷ 99 ∷ []) ∷ [] }

abbrev cleaned : SwitchConfig
cleaned = record wanted { ports = port_on (codes "port1") 10 (20 ∷ []) ∷ [] }

dangling_passes : validate_vlan_references_inner (λ s. false) dangling false ≡ ok cleaned
unfolding validate_vlan_references_inner check_vlan_names check_vlan_name max_vlan_name_length
    utf8_len any port_has_errors contains defined_vlans supports_speed speed_duplex_eq
    mirrors_have_errors text_eq filter_tags filter implicit_vlans
dangling_passes = refl

validate_references-Checked_example : Checked dangling cleaned
validate_references-Checked_example =
    validate_references-Checked (λ s. false) dangling false dangling_passes

abbrev accepted : SwitchConfig
accepted = record wanted {
  ports = port_on (codes "port1") 10 (20 ∷ []) ∷ port_on (codes "port2") 10 (20 ∷ []) ∷ [];
}

submitted_passes : validate_overlay_config submitted [] ≡ ok accepted
unfolding validate_overlay_config check_snmp_secret_sources check_sources labelled_communities
    check_source check_vendor_support vendor names_into ambiguous_from find_ambiguous_vlan_name
    name_to_id resolve_port resolve_ports resolve_ref resolve_refs resolve_tagged resolve_untagged
    resolve_vlan_names text_eq get insert any contains numbered_communities implicit_vlans
    has_reference snmp_reads_mode_eq reads_enabled expand_port_ranges concat_map expand_port
    parse_port_id split parse_segment split_once trim parse_range extract_number_suffix split_suffix
    check_destinations check_expanded check_port_ids check_port_vlans check_references check_tags
    check_vlan_ids valid_vlans expand_mirror numbered range_ids segment_ids suffix_number
    digits_value parse_digits parse_unsigned print_fuel to_string is_whitespace trim_end_by
    trim_start_by
submitted_passes = refl

validate_overlay_config-Accepted_example : Accepted accepted []
validate_overlay_config-Accepted_example =
    validate_overlay_config-Accepted submitted [] submitted_passes

-- what the two sources of the examples are merged to
abbrev pub merged_wanted : SwitchConfig
merged_wanted = record wanted {
  vlans = office ∷ voice ∷ vlan_named 30 (codes "Guests") ∷ [];
  management_vlan = none;
}

sources_pass :
    check_merged
      (λ s. false)
      (λ path. none)
      (record { credentials_dir = none })
      (merge_single_switch (codes "sw1") sources).0
      []
    ≡ ok (merged_wanted, [])
unfolding check_merged check_snmp_secret_sources check_sources labelled_communities check_source
    check_vendor_support vendor names_into ambiguous_from find_ambiguous_vlan_name name_to_id
    resolve_port resolve_ports resolve_ref resolve_refs resolve_tagged resolve_untagged
    resolve_vlan_names text_eq get insert any contains numbered_communities implicit_vlans
    has_reference snmp_reads_mode_eq reads_enabled validate_vlan_references_inner check_vlan_names
    check_vlan_name max_vlan_name_length utf8_len port_has_errors defined_vlans supports_speed
    speed_duplex_eq mirrors_have_errors filter_tags filter merge_single_switch by_priority
    merge_sorted merge_identity insert_configs sources_of note_sources first_validation
    merge_snmp_from merge_snmp_configs get_missing_required_fields insert_items into_values
    or_insert sort insert_sorted text_le validate_required_fields check_vlans validate_has_vlans
    resolve_snmp_secrets resolve_switch resolve_snmp resolve_list resolve_reads resolve_community
    secret_of use_secret validate_vlan_references
sources_pass = refl

merged_switch_converges_example :
    has_changes (
      compute_diff orders
        (apply_diff (compute_diff orders current_state merged_wanted true) current_state)
        merged_wanted
        true)
    ≡ false
merged_switch_converges_example =
    merged_switch_converges (λ s. false) (λ path. none) (record { credentials_dir = none }) []
      (codes "sw1") sources sources_pass orders orders current_state true

merged_vlan_example :
    IsSorted (λ a b. leb a.merge_priority b.merge_priority) (by_priority sources)
    × ((priority : ℕ)
        → filter (λ c. c.merge_priority == priority) (by_priority sources)
          ≡ filter (λ c. c.merge_priority == priority) sources)
    × ((id : ℕ)
        → (entry vlan_id id (merge (codes "sw1") sources).0.vlans
            ≡ first_of (first_with vlan_id (λ s. s.vlans) id (by_priority sources)))
          × (get id (merge (codes "sw1") sources).1
              ≡ second_of (first_with vlan_id (λ s. s.vlans) id (by_priority sources))))
merged_vlan_example = merged_vlan (codes "sw1") sources

merged_port_example :
    (entry port_id_of (codes "port1") (merge (codes "sw1") sources).0.ports
      ≡ first_of (first_with port_id_of (λ s. s.ports) (codes "port1") (by_priority sources)))
    × (get (codes "port1") (merge (codes "sw1") sources).2
        ≡ second_of (first_with port_id_of (λ s. s.ports) (codes "port1") (by_priority sources)))
    × (entry session_id_of (codes "port1") (merge (codes "sw1") sources).0.port_mirrors
        ≡ first_of
            (first_with session_id_of (λ s. s.port_mirrors) (codes "port1") (by_priority sources)))
merged_port_example = merged_port (codes "sw1") sources (codes "port1")

merged_distinct_ids_example :
    (distinct vlan_id (merge (codes "sw1") sources).0.vlans ≡ true)
    × (distinct port_id_of (merge (codes "sw1") sources).0.ports ≡ true)
    × (distinct session_id_of (merge (codes "sw1") sources).0.port_mirrors ≡ true)
merged_distinct_ids_example = merged_distinct_ids (codes "sw1") sources

no_conflicts : validate_switch_identity sources ≡ []
unfolding validate_switch_identity text_eq reference identity_conflicts conflict_with
    switch_model_eq
no_conflicts = refl

merged_identity_example : All (AgreesWith (merged_switch (codes "sw1") sources)) sources
merged_identity_example = merged_identity (codes "sw1") sources no_conflicts

merged_management_vlan_example :
    ((compute_diff orders current_state (merged_switch (codes "sw1") sources) true).management_vlan
      ≡ none)
    × ((compute_diff orders current_state
          (merged_switch (codes "sw1") sources)
          true).management_vlan_changed
        ≡ is_some current_state.management_vlan)
merged_management_vlan_example =
    merged_management_vlan (codes "sw1") sources orders current_state true

-- the second source has an SNMP part with traps only
abbrev ordered_sources : List ConfigWithMetadata
ordered_sources =
    record { switch = wanted; merge_priority = 10; source_file = codes "main.yaml" }
    ∷ record {
      switch = record wanted { snmp = some (record monitoring { communities = [] }) };
      merge_priority = 500;
      source_file = codes "extra.yaml";
    }
    ∷ []

merge_snmp_configs_lem_example : merge_snmp_configs ordered_sources ≡ (
    if any (λ c. is_some c.switch.snmp) ordered_sources
    then some (record {
      communities = first_list (λ s. s.communities) ordered_sources;
      trap_receivers = first_list (λ s. s.trap_receivers) ordered_sources;
      enabled_traps = first_list (λ s. s.enabled_traps) ordered_sources;
      reads = first_reads ordered_sources;
    })
    else none)
merge_snmp_configs_lem_example = merge_snmp_configs_lem ordered_sources ((refl, tt), (tt, tt))
