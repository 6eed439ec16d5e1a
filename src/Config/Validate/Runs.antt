-- ===== src/Config/Validate/Runs.antt =====
-- What a switch is like that passed the checks, and that a merged one converges.
use switch_configurator.Prelude.{
  ◌≡◌, ap, ◌∙◌, subst, Bool, true, false, not, Option, none, some, List, Text, text_eq, nat_eq,
  is_empty, arith,
}
use switch_configurator.Models.SwitchConfig.{SwitchConfig}
use switch_configurator.Models.Snmp.{SnmpConfig}
use switch_configurator.Models.State.{SwitchState, has_changes}
use switch_configurator.Diff.{Orders, compute_diff}
use switch_configurator.Diff.Keyed.{distinct}
use switch_configurator.Diff.Ports.{port_key}
use switch_configurator.Diff.Apply.{apply_diff}
use switch_configurator.Diff.Converges.{mirrors_apart, compute_diff-converges}
use switch_configurator.Config.Result.{ok, ◌>>=◌, >>=-eq_ok, ok_inj, ensure-eq_ok, no_vlans}
use switch_configurator.Config.Names.{resolve_vlan_names}
use switch_configurator.Config.Names.Resolved.{resolve_vlan_names_lem}
use switch_configurator.Config.References.{RangePattern, validate_vlan_references}
use switch_configurator.Config.References.Checked.{validate_references-Checked}
use switch_configurator.Config.Snmp.{check_snmp_secret_sources, check_vendor_support}
use switch_configurator.Config.Merge.{
  ConfigWithMetadata, merge_single_switch, get_missing_required_fields,
}
use switch_configurator.Config.Merge.Wins.{merged_distinct_ids}
use switch_configurator.Config.Validate.{
  validate_required_fields, validate_has_vlans, check_vlans, check_merged,
}
use switch_configurator.Secrets.{
  Files, SecretContext, resolve_snmp, resolve_switch, resolve_snmp_secrets,
}

module _ (files : Files) (ctx : SecretContext) where
  switch_lem :
      (switch : SwitchConfig) (registry : List Text) (o : Option SnmpConfig)
      {x : SwitchConfig × List Text}
      → resolve_switch files ctx switch registry o ≡ ok x
      → (x.0.ports ≡ switch.ports) × (x.0.vlans ≡ switch.vlans)
  unfolding resolve_switch
  switch_lem switch registry none h = (ground arith, ground arith)
  switch_lem switch registry (some snmp) h =
      let (y, _, h') =
        >>=-eq_ok (resolve_snmp files ctx snmp registry)
          (λ y. ok (record switch { snmp = some y.0 }, y.1)) h in
      (ground (arith, h'), ground (arith, h'))

  -- secrets change the SNMP part only
  secrets_keep_ports :
      (switch : SwitchConfig) (registry : List Text) {x : SwitchConfig × List Text}
      → resolve_snmp_secrets files ctx switch registry ≡ ok x
      → (x.0.ports ≡ switch.ports) × (x.0.vlans ≡ switch.vlans)
  unfolding resolve_snmp_secrets
  secrets_keep_ports switch registry h =
      let (_, _, h') =
        >>=-eq_ok (check_snmp_secret_sources switch)
          (λ _. resolve_switch files ctx switch registry switch.snmp) h in
      switch_lem switch registry switch.snmp h'

check_vlans_lem :
    (pattern_of : RangePattern) (switch : SwitchConfig) {checked : SwitchConfig}
    → check_vlans pattern_of switch ≡ ok checked
    → (distinct port_key checked.ports ≡ distinct port_key switch.ports)
      × (mirrors_apart checked ≡ true)
      × (checked.vlans ≡ switch.vlans)
unfolding check_vlans validate_vlan_references
check_vlans_lem pattern_of switch h =
    let (named, hn, h') =
      >>=-eq_ok (resolve_vlan_names switch false) (validate_vlan_references pattern_of) h in
    let c = validate_references-Checked pattern_of named false h' in
    let ((_, same, _), same_vlans, _, _) = resolve_vlan_names_lem switch false hn in
    (c.same_distinct ∙ same, c.apart, c.same_vlans ∙ same_vlans)

module _ (pattern_of : RangePattern) (files : Files) (ctx : SecretContext) (switch : SwitchConfig)
    (registry : List Text) where
  check_merged_lem :
      {x : SwitchConfig × List Text}
      → check_merged pattern_of files ctx switch registry ≡ ok x
      → (distinct port_key x.0.ports ≡ distinct port_key switch.ports)
        × (mirrors_apart x.0 ≡ true)
        × (is_empty x.0.vlans ≡ false)
        × (is_empty (get_missing_required_fields switch) ≡ true)
  unfolding check_merged validate_required_fields validate_has_vlans
  check_merged_lem h =
      let last = λ (read : SwitchConfig × List Text) (checked : SwitchConfig).
        validate_has_vlans checked >>= λ _. ok (checked, read.1) in
      let behind = λ (read : SwitchConfig × List Text).
        check_vendor_support read.0 >>= λ _. check_vlans pattern_of read.0 >>= last read in
      let (_, hr, h₁) =
        >>=-eq_ok (validate_required_fields switch)
          (λ _. resolve_snmp_secrets files ctx switch registry >>= behind) h in
      let (read, hs, h₂) = >>=-eq_ok (resolve_snmp_secrets files ctx switch registry) behind h₁ in
      let (_, _, h₃) =
        >>=-eq_ok (check_vendor_support read.0) (λ _. check_vlans pattern_of read.0 >>= last read)
          h₂ in
      let (checked, hv, h₄) = >>=-eq_ok (check_vlans pattern_of read.0) (last read) h₃ in
      let (_, hn, h₅) = >>=-eq_ok (validate_has_vlans checked) (λ _. ok (checked, read.1)) h₄ in
      let (same, apart, _) = check_vlans_lem pattern_of read.0 hv in
      let (same_ports, _) = secrets_keep_ports files ctx switch registry hs in
      subst
        (λ (x : SwitchConfig × List Text).
          (distinct port_key x.0.ports ≡ distinct port_key switch.ports)
          × (mirrors_apart x.0 ≡ true)
          × (is_empty x.0.vlans ≡ false)
          × (is_empty (get_missing_required_fields switch) ≡ true))
        (ok_inj h₅)
        (
          same ∙ ap (distinct port_key) same_ports,
          apart,
          ground (arith, ensure-eq_ok (not (is_empty checked.vlans)) no_vlans hn),
          ensure-eq_ok _ _ hr,
        )

-- A merged switch that passes the checks converges: whatever the device has, once it has carried out
-- the difference to the merged configuration, the next difference is empty.
pub merged_switch_converges :
    (pattern_of : RangePattern) (files : Files) (ctx : SecretContext) (registry : List Text)
    (switch_id : Text) (configs : List ConfigWithMetadata) {x : SwitchConfig × List Text}
    → check_merged pattern_of files ctx (merge_single_switch switch_id configs).0 registry ≡ ok x
    → (o o' : Orders) (current : SwitchState) (enforce : Bool)
    → has_changes
        (compute_diff o' (apply_diff (compute_diff o current x.0 enforce) current) x.0 enforce)
      ≡ false
merged_switch_converges pattern_of files ctx registry switch_id configs {x} h o o' current enforce =
    let (same, apart, _, _) =
      check_merged_lem pattern_of files ctx (merge_single_switch switch_id configs).0 registry h in
    let (_, ports_distinct, _) = merged_distinct_ids switch_id configs in
    compute_diff-converges o o' current x.0 enforce (same ∙ ports_distinct) apart
