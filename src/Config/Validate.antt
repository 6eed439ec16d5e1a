-- ===== src/Config/Validate.antt =====
-- config.rs: `validate_switch_config`, for a file by itself, and the checks of `merge_configs` on each
-- merged switch. Registered secrets are passed along. What the `validator` crate makes of the
-- attributes is the test `Structure`.
pub mod Runs
pub mod Keeps
use switch_configurator.Prelude.{
  Bool, true, false, not, Option, none, some, List, [], ◌∷◌, Text, is_empty, if◌then◌else◌,
}
use switch_configurator.Models.SwitchConfig.{SwitchConfig}
use switch_configurator.Config.Result.{
  ConfigError, Result, ok, err, ensure, ◌>>=◌, ◌>>◌, missing_fields, structural, no_vlans,
}
use switch_configurator.Config.PortRange.{expand_port_ranges}
use switch_configurator.Config.Names.{resolve_vlan_names}
use switch_configurator.Config.References.{RangePattern, validate_vlan_references}
use switch_configurator.Config.Snmp.{check_vendor_support}
use switch_configurator.Config.Merge.{get_missing_required_fields}
use switch_configurator.Secrets.{Files, SecretContext, resolve_snmp_secrets}

abbrev pub Structure : Type 0
Structure = SwitchConfig → Bool

unfoldable pub validate_required_fields : SwitchConfig → Result (Unit {0})
unfolding get_missing_required_fields
validate_required_fields switch =
    ensure (is_empty (get_missing_required_fields switch))
      (missing_fields (get_missing_required_fields switch))

unfoldable pub validate_has_vlans : SwitchConfig → Result (Unit {0})
validate_has_vlans switch = ensure (not (is_empty switch.vlans)) no_vlans

-- the VLANs of a switch: the names are resolved, then the references are checked
unfoldable pub check_vlans : RangePattern → SwitchConfig → Result SwitchConfig
check_vlans pattern_of switch =
    resolve_vlan_names switch false >>= validate_vlan_references pattern_of

unfoldable pub validate_switch_config :
    Structure
    → RangePattern
    → Files
    → SecretContext
    → SwitchConfig
    → List Text
    → Result (SwitchConfig × List Text)
unfolding validate_required_fields check_vlans
validate_switch_config structure pattern_of files ctx switch registry = do
  expanded ← expand_port_ranges switch
  validate_required_fields expanded
  ensure (structure expanded) structural
  read ← resolve_snmp_secrets files ctx expanded registry
  check_vendor_support read.0
  checked ← check_vlans pattern_of read.0
  ok (checked, read.1)

-- a merged switch either runs or is reported
unfoldable pub check_merged :
    RangePattern
    → Files
    → SecretContext
    → SwitchConfig
    → List Text
    → Result (SwitchConfig × List Text)
unfolding validate_required_fields check_vlans validate_has_vlans
check_merged pattern_of files ctx switch registry = do
  validate_required_fields switch
  read ← resolve_snmp_secrets files ctx switch registry
  check_vendor_support read.0
  checked ← check_vlans pattern_of read.0
  validate_has_vlans checked
  ok (checked, read.1)
