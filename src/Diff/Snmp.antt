-- ===== src/Diff/Snmp.antt =====
-- `diff_snmp` of diff/mod.rs.
pub mod Converges
use switch_configurator.Prelude.{
  Bool, false, not, ◌||◌, Option, none, some, List, [], Text, Eq, derived_eq, ◌==◌, ◌!=◌, text_eq,
  ℕ_discrete, map,
}
use switch_configurator.Prelude.Str.{text_le}
use switch_configurator.Prelude.Sort.{sort}
use switch_configurator.Prelude.HashMap.{HashOrder}
use switch_configurator.Models.Snmp.{
  AllowedHost, SnmpCommunity, SnmpTrapReceiver, SnmpConfig, TrapType, snmp_access_eq, trap_type_eq,
  host_text,
}
use switch_configurator.Models.SwitchConfig.{SwitchConfig}
use switch_configurator.Models.State.{SwitchState, SnmpStateDiff, StateDiff, has_snmp_changes}
use switch_configurator.SnmpReads.{effective_snmp}
use switch_configurator.Diff.Keyed.{added, removed, changed}

pub Texts-discrete : Discrete (List Text)
Texts-discrete = hlevel ℕ_discrete

instance unfoldable pub texts_eq : Eq (List Text)
unfolding derived_eq Texts-discrete ℕ_discrete
texts_eq = derived_eq Texts-discrete

unfoldable pub same_hosts : List AllowedHost → List AllowedHost → Bool
unfolding sort text_le host_text
same_hosts a b = sort text_le (map host_text a) == sort text_le (map host_text b)

abbrev pub community_key : SnmpCommunity → Text
community_key c = c.name

abbrev pub receiver_key : SnmpTrapReceiver → Text
receiver_key r = r.host

abbrev pub trap_key : TrapType → TrapType
trap_key t = t

unfoldable pub same_community : SnmpCommunity → SnmpCommunity → Bool
unfolding same_hosts
same_community current desired = not (
    current.access != desired.access
    || not (same_hosts current.allowed_hosts desired.allowed_hosts))

abbrev pub by_name : SnmpCommunity → SnmpCommunity → Bool
by_name a b = text_le a.name b.name

unfoldable pub compute_snmp_diff :
    HashOrder Text → HashOrder TrapType → SnmpConfig → SnmpConfig → SnmpStateDiff
compute_snmp_diff order traps current desired = record {
  communities_to_add =
      sort by_name (added community_key order current.communities desired.communities);
  communities_to_remove =
      sort text_le (removed community_key order current.communities desired.communities);
  communities_to_update =
      sort by_name
        (changed community_key order same_community current.communities desired.communities);
  trap_receivers_to_add = added receiver_key order current.trap_receivers desired.trap_receivers;
  trap_receivers_to_remove =
      removed receiver_key order current.trap_receivers desired.trap_receivers;
  traps_to_enable = added trap_key traps current.enabled_traps desired.enabled_traps;
  traps_to_disable = removed trap_key traps current.enabled_traps desired.enabled_traps;
}

unfoldable pub snmp_difference :
    HashOrder Text
    → HashOrder TrapType
    → Option SnmpConfig
    → Option SnmpConfig
    → Option SnmpStateDiff
snmp_difference order traps none none = none
snmp_difference order traps none (some desired) = some (record {
  communities_to_add = desired.communities;
  communities_to_remove = [];
  communities_to_update = [];
  trap_receivers_to_add = desired.trap_receivers;
  trap_receivers_to_remove = [];
  traps_to_enable = desired.enabled_traps;
  traps_to_disable = [];
})
snmp_difference order traps (some current) none = some (record {
  communities_to_add = [];
  communities_to_remove = map (λ c. c.name) current.communities;
  communities_to_update = [];
  trap_receivers_to_add = [];
  trap_receivers_to_remove = map (λ r. r.host) current.trap_receivers;
  traps_to_enable = [];
  traps_to_disable = current.enabled_traps;
})
snmp_difference order traps (some current) (some desired) =
    some (compute_snmp_diff order traps current desired)

-- `snmp_config_changed` in each of the four cases
abbrev pub difference_has_changes : Option SnmpStateDiff → Bool
difference_has_changes none = false
difference_has_changes (some d) = has_snmp_changes d

-- `snmp_config`, which the first case leaves alone
abbrev pub written_config :
    Option SnmpConfig → Option SnmpConfig → Option SnmpConfig → Option SnmpConfig
written_config none none old = old
written_config current desired old = desired

unfoldable pub diff_snmp :
    HashOrder Text → HashOrder TrapType → SwitchState → SwitchConfig → StateDiff → StateDiff
diff_snmp order traps current desired diff =
    let wanted = effective_snmp desired in
    let difference = snmp_difference order traps current.snmp wanted in
    record diff {
      snmp_config_changed = difference_has_changes difference;
      snmp_diff = difference;
      snmp_config = written_config current.snmp wanted diff.snmp_config;
    }
