-- ===== src/Config/Merge.antt =====
-- config.rs: `merge_single_switch`, `merge_snmp_configs`, `validate_switch_identity` and
-- `get_missing_required_fields`.
pub mod Table
pub mod Wins
pub mod Identity
pub mod Snmp
use switch_configurator.Prelude.{
  ℕ, Bool, true, false, not, ◌&&◌, ◌||◌, Option, none, some, List, [], ◌∷◌, ◌++◌, Text, codes, ◌!=◌,
  text_eq, nat_eq, Eq, leb, ltb, is_none, is_empty, is_some, or_option, if◌then◌else◌,
}
use switch_configurator.Prelude.HashMap.{HashMap, or_insert}
use switch_configurator.Prelude.Sort.{sort}
use switch_configurator.Prelude.Str.{text_le}
use switch_configurator.Models.Hardware.{SwitchModel, switch_model_eq}
use switch_configurator.Models.Network.{Vlan, Port, PortMirror}
use switch_configurator.Models.Snmp.{
  SnmpConfig, SnmpCommunity, SnmpTrapReceiver, TrapType, SnmpReads,
}
use switch_configurator.Models.SwitchConfig.{
  SwitchConfig, ValidationConfig, Settings, default_settings,
}
use switch_configurator.Diff.Keyed.{at}
use Table.{insert_items, into_values}

-- `ConfigWithMetadata` as `merge_configs` passes it on: with one switch
pub record ConfigWithMetadata : Type 0 where
  pub switch : SwitchConfig
  pub merge_priority : ℕ
  pub source_file : Text

unfoldable pub get_missing_required_fields : SwitchConfig → List Text
get_missing_required_fields switch =
    (if is_none switch.hostname then codes "hostname" ∷ [] else [])
    ++ (if is_none switch.model then codes "model" ∷ [] else [])
    ++ (if is_none switch.management_ip then codes "management_ip" ∷ [] else [])
    ++ (if is_none switch.credentials then codes "credentials" ∷ [] else [])

-- `configs.sort_by_key(|c| c.merge_priority)`
unfoldable pub by_priority : List ConfigWithMetadata → List ConfigWithMetadata
by_priority configs = sort (λ a b. leb a.merge_priority b.merge_priority) configs

unfoldable pub merge_identity : SwitchConfig → List ConfigWithMetadata → SwitchConfig
merge_identity merged [] = merged
merge_identity merged (c ∷ cs) =
    merge_identity
      (record merged {
        hostname = or_option merged.hostname c.switch.hostname;
        model = or_option merged.model c.switch.model;
        management_ip = or_option merged.management_ip c.switch.management_ip;
        credentials = or_option merged.credentials c.switch.credentials;
      })
      cs

-- the loop over the configs, and over the entries of one kind in each
module _ {K V : Type 0} ⦃e : Eq K⦄ (key : V → K) (field : SwitchConfig → List V) where
  unfoldable pub insert_configs : HashMap K V → List ConfigWithMetadata → HashMap K V
  unfolding insert_items
  insert_configs m [] = m
  insert_configs m (c ∷ cs) = insert_configs (insert_items key m (field c.switch)) cs

  unfoldable pub note_sources : Text → HashMap K Text → List V → HashMap K Text
  note_sources file m [] = m
  note_sources file m (v ∷ vs) = note_sources file (or_insert (key v) file m) vs

  -- where each entry comes from
  unfoldable pub sources_of : HashMap K Text → List ConfigWithMetadata → HashMap K Text
  unfolding note_sources
  sources_of m [] = m
  sources_of m (c ∷ cs) = sources_of (note_sources c.source_file m (field c.switch)) cs

unfoldable pub first_validation : List ConfigWithMetadata → Option ValidationConfig
first_validation [] = none
first_validation (c ∷ cs) =
    let rest = first_validation cs in
    if is_some c.switch.validation then c.switch.validation else rest

-- a list of the SNMP configuration, and the priority that it was taken from
abbrev pub replace_list {ℓ} : {A : Type ℓ} → ℕ → List A → List A × Option ℕ → List A × Option ℕ
replace_list priority new (old, none) = if is_empty new then (old, none) else (new, some priority)
replace_list priority new (old, some p) =
    if not (is_empty new) && ltb priority p then (new, some priority) else (old, some p)

abbrev pub replace_reads :
    ℕ → Option SnmpReads → Option SnmpReads × Option ℕ → Option SnmpReads × Option ℕ
replace_reads priority none (old, q) = (old, q)
replace_reads priority (some new) (old, none) = (some new, some priority)
replace_reads priority (some new) (old, some p) =
    if ltb priority p then (some new, some priority) else (old, some p)

-- the variables of the loop; `merged_snmp` is set once a config has an SNMP part
pub record SnmpMerge : Type 0 where
  pub seen : Bool
  pub communities : List SnmpCommunity × Option ℕ
  pub trap_receivers : List SnmpTrapReceiver × Option ℕ
  pub enabled_traps : List TrapType × Option ℕ
  pub reads : Option SnmpReads × Option ℕ

abbrev pub no_snmp : SnmpMerge
no_snmp = record {
  seen = false;
  communities = ([], none);
  trap_receivers = ([], none);
  enabled_traps = ([], none);
  reads = (none, none);
}

abbrev pub add_snmp : ℕ → Option SnmpConfig → SnmpMerge → SnmpMerge
add_snmp priority none m = m
add_snmp priority (some snmp) m = record {
  seen = true;
  communities = replace_list priority snmp.communities m.communities;
  trap_receivers = replace_list priority snmp.trap_receivers m.trap_receivers;
  enabled_traps = replace_list priority snmp.enabled_traps m.enabled_traps;
  reads = replace_reads priority snmp.reads m.reads;
}

unfoldable pub merge_snmp_from : SnmpMerge → List ConfigWithMetadata → SnmpMerge
merge_snmp_from m [] = m
merge_snmp_from m (c ∷ cs) = merge_snmp_from (add_snmp c.merge_priority c.switch.snmp m) cs

abbrev pub snmp_of : SnmpMerge → Option SnmpConfig
snmp_of m =
    if m.seen
    then some (record {
      communities = m.communities.0;
      trap_receivers = m.trap_receivers.0;
      enabled_traps = m.enabled_traps.0;
      reads = m.reads.0;
    })
    else none

unfoldable pub merge_snmp_configs : List ConfigWithMetadata → Option SnmpConfig
unfolding merge_snmp_from
merge_snmp_configs configs = snmp_of (merge_snmp_from no_snmp configs)

abbrev first_settings : List ConfigWithMetadata → Settings
first_settings [] = default_settings
first_settings (c ∷ cs) = c.switch.settings

abbrev pub empty_switch : Text → SwitchConfig
empty_switch switch_id = record {
  id = switch_id;
  hostname = none;
  model = none;
  management_ip = none;
  credentials = none;
  vlans = [];
  ports = [];
  port_mirrors = [];
  snmp = none;
  management_vlan = none;
  validation = none;
  vendor_specific = [];
  settings = default_settings;
}

abbrev pub vlan_id : Vlan → ℕ
vlan_id v = v.id

abbrev pub port_id_of : Port → Text
port_id_of p = p.port_id

abbrev pub session_id_of : PortMirror → Text
session_id_of m = m.session_id

-- the switch that is merged from configs in the order of their priority
unfoldable pub merge_sorted : Text → List ConfigWithMetadata → SwitchConfig
unfolding merge_identity insert_configs into_values merge_snmp_configs first_validation
merge_sorted switch_id configs = record (merge_identity (empty_switch switch_id) configs) {
  vlans = into_values vlan_id leb (insert_configs vlan_id (λ s. s.vlans) [] configs);
  ports = into_values port_id_of text_le (insert_configs port_id_of (λ s. s.ports) [] configs);
  port_mirrors =
      into_values session_id_of text_le
        (insert_configs session_id_of (λ s. s.port_mirrors) [] configs);
  snmp = merge_snmp_configs configs;
  validation = first_validation configs;
  settings = first_settings configs;
}

unfoldable pub merge_single_switch :
    Text → List ConfigWithMetadata → SwitchConfig × HashMap ℕ Text × HashMap Text Text
unfolding by_priority merge_sorted sources_of
merge_single_switch switch_id configs = (
  merge_sorted switch_id (by_priority configs),
  sources_of vlan_id (λ s. s.vlans) [] (by_priority configs),
  sources_of port_id_of (λ s. s.ports) [] (by_priority configs),
)

pub data IdentityField : Type 0 where
  hostname management_ip model : IdentityField

-- the field that two sources disagree on; the texts of the message are not modelled
pub record MergeConflict : Type 0 where
  pub component_id : IdentityField
  pub conflicting_sources : List (Text × ℕ)

module _ {V : Type 0} ⦃e : Eq V⦄ (component : IdentityField) (field : SwitchConfig → Option V) where
  -- the first config with the field
  unfoldable pub reference : List ConfigWithMetadata → Option (V × Text × ℕ)
  reference [] = none
  reference (c ∷ cs) =
      let rest = reference cs in
      elim (field c.switch) [ none ↦ rest | some v ↦ some (v, c.source_file, c.merge_priority) ]

  unfoldable pub conflict_with : Option (V × Text × ℕ) → ConfigWithMetadata → List MergeConflict
  conflict_with none c = []
  conflict_with (some (ref, source, priority)) c = elim (field c.switch) [
    | none ↦ []
    | some v ↦
        if v != ref
        then record {
          component_id = component;
          conflicting_sources = (source, priority) ∷ (c.source_file, c.merge_priority) ∷ [];
        }
          ∷ []
        else []
  ]

unfoldable pub identity_conflicts :
    Option (Text × Text × ℕ)
    → Option (Text × Text × ℕ)
    → Option (SwitchModel × Text × ℕ)
    → List ConfigWithMetadata
    → List MergeConflict
unfolding conflict_with
identity_conflicts ref_hostname ref_ip ref_model [] = []
identity_conflicts ref_hostname ref_ip ref_model (c ∷ cs) =
    conflict_with hostname (λ s. s.hostname) ref_hostname c
    ++ conflict_with management_ip (λ s. s.management_ip) ref_ip c
    ++ conflict_with model (λ s. s.model) ref_model c
    ++ identity_conflicts ref_hostname ref_ip ref_model cs

unfoldable pub validate_switch_identity : List ConfigWithMetadata → List MergeConflict
unfolding reference identity_conflicts
validate_switch_identity configs =
    identity_conflicts (reference hostname (λ s. s.hostname) configs)
      (reference management_ip (λ s. s.management_ip) configs)
      (reference model (λ s. s.model) configs) configs
