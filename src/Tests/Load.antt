-- ===== src/Tests/Load.antt =====
-- Two files of a configuration, of which the second has a switch without identity.
use switch_configurator.Secrets.{
  use_secret, secret_of, resolve_community, resolve_reads, resolve_list, resolve_snmp,
  resolve_switch, resolve_snmp_secrets,
}
use switch_configurator.Config.Merge.Table.{into_values, insert_items}
use switch_configurator.SnmpReads.{reads_enabled}
use switch_configurator.Models.Snmp.{snmp_reads_mode_eq, has_reference}
use switch_configurator.Config.Snmp.{
  numbered_communities, check_vendor_support, check_source, labelled_communities, check_sources,
  check_snmp_secret_sources,
}
use switch_configurator.Models.Hardware.{
  switch_model_eq, vendor, implicit_vlans, speed_duplex_eq, supports_speed, max_vlan_name_length,
}
use switch_configurator.Prelude.{filter, contains, any}
use switch_configurator.Prelude.HashMap.{keys, or_insert, insert, get}
use switch_configurator.Prelude.Sort.{insert_sorted, sort}
use switch_configurator.Prelude.Str.{text_le, utf8_len}
use switch_configurator.Config.Names.{
  resolve_refs, resolve_ref, names_into, resolve_tagged, resolve_untagged, resolve_port,
  resolve_ports, ambiguous_from, find_ambiguous_vlan_name, name_to_id, resolve_vlan_names,
}
use switch_configurator.Config.References.{
  validate_vlan_references, filter_tags, mirrors_have_errors, defined_vlans, port_has_errors,
  check_vlan_name, check_vlan_names, validate_vlan_references_inner,
}
use switch_configurator.Config.Merge.{
  conflict_with, identity_conflicts, reference, get_missing_required_fields, merge_snmp_configs,
  merge_snmp_from, first_validation, note_sources, sources_of, insert_configs, merge_identity,
  merge_sorted, by_priority, merge_single_switch, validate_switch_identity,
}
use switch_configurator.Config.Validate.{
  validate_has_vlans, check_vlans, validate_required_fields, check_merged,
}
use switch_configurator.Prelude.{
  ◌≡◌, refl, false, not, none, List, [], ◌∷◌, codes, text_eq, All, is_empty,
}
use switch_configurator.Prelude.HashMap.{insertion_order}
use switch_configurator.SessionPool.Balance.{one}
use switch_configurator.Config.Result.{missing_fields}
use switch_configurator.Config.References.{RangePattern}
use switch_configurator.Config.Load.{
  accept_merged, check_all_merged, push_source, group_switches, group_sources, merge_groups,
  merge_outcome, SourceConfig, main_config, folder_config, ValidationResult, merged, merge_configs,
}
use switch_configurator.Config.Load.Grouped.{sources_for}
use switch_configurator.Config.Load.Accounted.{
  accounted, merge_configs_accounts, RunsFrom, FailsFrom, merge_configs_from_sources,
}
use switch_configurator.Secrets.{Files, SecretContext}
use switch_configurator.Tests.Data.{wanted, vlan_named}
use switch_configurator.Tests.Config.{merged_wanted}

abbrev no_pattern : RangePattern
no_pattern = λ s. false

abbrev no_files : Files
no_files = λ path. none

abbrev no_context : SecretContext
no_context = record { credentials_dir = none }

abbrev two_files : List SourceConfig
two_files =
    record {
      switches = wanted ∷ [];
      merge_priority = 10;
      source_file = codes "main.yaml";
      source_type = main_config;
    }
    ∷ record {
      switches =
          record wanted {
            vlans = vlan_named 10 (codes "Extra") ∷ vlan_named 30 (codes "Guests") ∷ [];
            hostname = none;
          }
          ∷ record wanted { id = codes "sw2"; hostname = none; vlans = []; ports = [] }
          ∷ [];
      merge_priority = 500;
      source_file = codes "extra.yaml";
      source_type = folder_config;
    }
    ∷ []

abbrev both_switches : ValidationResult
both_switches = record {
  valid = merged_wanted ∷ [];
  failures =
      record {
        switch_id = codes "sw2";
        hostname = none;
        error = missing_fields (codes "hostname" ∷ []);
        vlan_sources = [];
        port_sources = [];
      }
      ∷ [];
}

files_merge :
    merge_configs no_pattern no_files no_context insertion_order two_files ≡ merged both_switches
unfolding merge_configs merge_outcome merge_groups group_sources group_switches push_source keys
    check_all_merged accept_merged validate_switch_identity reference identity_conflicts
    conflict_with switch_model_eq check_merged check_snmp_secret_sources check_sources
    labelled_communities check_source check_vendor_support vendor names_into ambiguous_from
    find_ambiguous_vlan_name name_to_id resolve_port resolve_ports resolve_ref resolve_refs
    resolve_tagged resolve_untagged resolve_vlan_names text_eq get insert any contains
    numbered_communities implicit_vlans has_reference snmp_reads_mode_eq reads_enabled
    validate_vlan_references_inner check_vlan_names check_vlan_name max_vlan_name_length utf8_len
    port_has_errors defined_vlans supports_speed speed_duplex_eq mirrors_have_errors filter_tags
    filter merge_single_switch by_priority merge_sorted merge_identity insert_configs sources_of
    note_sources first_validation merge_snmp_from merge_snmp_configs get_missing_required_fields
    insert_items into_values or_insert sort insert_sorted text_le validate_required_fields
    check_vlans validate_has_vlans resolve_snmp_secrets resolve_switch resolve_snmp resolve_list
    resolve_reads resolve_community secret_of use_secret validate_vlan_references
files_merge = refl

merge_configs_accounts_example :
    accounted no_pattern no_files no_context (codes "sw2") both_switches
    ≡ one (not (is_empty (sources_for (codes "sw2") two_files)))
merge_configs_accounts_example =
    merge_configs_accounts no_pattern no_files no_context insertion_order two_files both_switches
      (codes "sw2") files_merge

merge_configs_from_sources_example :
    All (RunsFrom no_pattern no_files no_context two_files) both_switches.valid
    × All (FailsFrom no_pattern no_files no_context two_files) both_switches.failures
merge_configs_from_sources_example =
    merge_configs_from_sources no_pattern no_files no_context insertion_order two_files
      both_switches files_merge
