-- ===== src/Config/Validate/Keeps.antt =====
-- The checks leave a switch's id as it is.
use switch_configurator.Prelude.{
  ◌≡◌, sym, ap, ◌∙◌, Bool, false, Option, none, some, List, Text, text_eq, arith,
}
use switch_configurator.Models.SwitchConfig.{SwitchConfig}
use switch_configurator.Models.Snmp.{SnmpConfig}
use switch_configurator.Config.Result.{ok, ◌>>=◌, >>=-eq_ok, ok_inj, ensure, structural}
use switch_configurator.Config.PortRange.{expand_port_ranges}
use switch_configurator.Config.Names.{resolve_vlan_names}
use switch_configurator.Config.References.{
  RangePattern, validate_vlan_references, validate_vlan_references_inner,
}
use switch_configurator.Config.Snmp.{check_snmp_secret_sources, check_vendor_support}
use switch_configurator.Config.Validate.{
  Structure, validate_required_fields, validate_has_vlans, check_vlans, check_merged,
  validate_switch_config,
}
use switch_configurator.Secrets.{Files, SecretContext, resolve_switch, resolve_snmp_secrets}

expand_id :
    (switch : SwitchConfig) {x : SwitchConfig} → expand_port_ranges switch ≡ ok x → x.id ≡ switch.id
unfolding expand_port_ranges
expand_id switch h = ground (arith, h)

names_id :
    (switch : SwitchConfig) (strict : Bool) {x : SwitchConfig}
    → resolve_vlan_names switch strict ≡ ok x
    → x.id ≡ switch.id
unfolding resolve_vlan_names
names_id switch strict h = ground (arith, h)

references_id :
    (pattern_of : RangePattern) (switch : SwitchConfig) {x : SwitchConfig}
    → validate_vlan_references pattern_of switch ≡ ok x
    → x.id ≡ switch.id
unfolding validate_vlan_references validate_vlan_references_inner
references_id pattern_of switch h = ground (arith, h)

vlans_id :
    (pattern_of : RangePattern) (switch : SwitchConfig) {x : SwitchConfig}
    → check_vlans pattern_of switch ≡ ok x
    → x.id ≡ switch.id
unfolding check_vlans
vlans_id pattern_of switch {x} h =
    let (named, hn, h') =
      >>=-eq_ok (resolve_vlan_names switch false) (validate_vlan_references pattern_of) h in
    references_id pattern_of named h' ∙ names_id switch false hn

switch_id :
    (files : Files) (ctx : SecretContext) (switch : SwitchConfig) (registry : List Text)
    (o : Option SnmpConfig) {x : SwitchConfig × List Text}
    → resolve_switch files ctx switch registry o ≡ ok x
    → x.0.id ≡ switch.id
unfolding resolve_switch
switch_id files ctx switch registry none h = ground (arith, h)
switch_id files ctx switch registry (some snmp) h = ground (arith, h)

secrets_id :
    (files : Files) (ctx : SecretContext) (switch : SwitchConfig) (registry : List Text)
    {x : SwitchConfig × List Text}
    → resolve_snmp_secrets files ctx switch registry ≡ ok x
    → x.0.id ≡ switch.id
unfolding resolve_snmp_secrets
secrets_id files ctx switch registry h =
    let (_, _, h') =
      >>=-eq_ok (check_snmp_secret_sources switch)
        (λ _. resolve_switch files ctx switch registry switch.snmp) h in
    switch_id files ctx switch registry switch.snmp h'

pub check_merged-id :
    (pattern_of : RangePattern) (files : Files) (ctx : SecretContext) (switch : SwitchConfig)
    (registry : List Text) {x : SwitchConfig × List Text}
    → check_merged pattern_of files ctx switch registry ≡ ok x
    → x.0.id ≡ switch.id
unfolding check_merged
check_merged-id pattern_of files ctx switch registry h =
    let last = λ (read : SwitchConfig × List Text) (checked : SwitchConfig).
      validate_has_vlans checked >>= λ _. ok (checked, read.1) in
    let behind = λ (read : SwitchConfig × List Text).
      check_vendor_support read.0 >>= λ _. check_vlans pattern_of read.0 >>= last read in
    let (_, _, h₁) =
      >>=-eq_ok (validate_required_fields switch)
        (λ _. resolve_snmp_secrets files ctx switch registry >>= behind) h in
    let (read, hs, h₂) = >>=-eq_ok (resolve_snmp_secrets files ctx switch registry) behind h₁ in
    let (_, _, h₃) =
      >>=-eq_ok (check_vendor_support read.0) (λ _. check_vlans pattern_of read.0 >>= last read)
        h₂ in
    let (checked, hv, h₄) = >>=-eq_ok (check_vlans pattern_of read.0) (last read) h₃ in
    let (_, _, h₅) = >>=-eq_ok (validate_has_vlans checked) (λ _. ok (checked, read.1)) h₄ in
    sym (ap (λ y. y.0.id) (ok_inj h₅))
    ∙ vlans_id pattern_of read.0 hv
    ∙ secrets_id files ctx switch registry hs

pub validate_switch_config-id :
    (structure : Structure) (pattern_of : RangePattern) (files : Files) (ctx : SecretContext)
    (switch : SwitchConfig) (registry : List Text) {x : SwitchConfig × List Text}
    → validate_switch_config structure pattern_of files ctx switch registry ≡ ok x
    → x.0.id ≡ switch.id
unfolding validate_switch_config
validate_switch_config-id structure pattern_of files ctx switch registry h =
    let last = λ (read : SwitchConfig × List Text) (checked : SwitchConfig). ok (checked, read.1) in
    let behind = λ (read : SwitchConfig × List Text).
      check_vendor_support read.0 >>= λ _. check_vlans pattern_of read.0 >>= last read in
    let after =
      λ (expanded : SwitchConfig). resolve_snmp_secrets files ctx expanded registry >>= behind in
    let structured =
      λ (expanded : SwitchConfig). ensure (structure expanded) structural >>= λ _. after expanded in
    let (expanded, he, h₁) =
      >>=-eq_ok (expand_port_ranges switch)
        (λ expanded. validate_required_fields expanded >>= λ _. structured expanded) h in
    let (_, _, h₂) = >>=-eq_ok (validate_required_fields expanded) (λ _. structured expanded) h₁ in
    let (_, _, h₃) = >>=-eq_ok (ensure (structure expanded) structural) (λ _. after expanded) h₂ in
    let (read, hs, h₄) = >>=-eq_ok (resolve_snmp_secrets files ctx expanded registry) behind h₃ in
    let (_, _, h₅) =
      >>=-eq_ok (check_vendor_support read.0) (λ _. check_vlans pattern_of read.0 >>= last read)
        h₄ in
    let (checked, hv, h₆) = >>=-eq_ok (check_vlans pattern_of read.0) (last read) h₅ in
    sym (ap (λ y. y.0.id) (ok_inj h₆))
    ∙ vlans_id pattern_of read.0 hv
    ∙ secrets_id files ctx expanded registry hs
    ∙ expand_id switch he
