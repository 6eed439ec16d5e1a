-- ===== src/AllowedHosts.antt =====
-- allowed_hosts.rs: `resolve_auto_hosts`, which replaces the host `auto` of the SNMP communities by
-- the address that the switch sees the service at. The routing table is asked through a parameter.
pub mod Resolved
pub mod Fortios
pub mod Masks
use switch_configurator.Prelude.{
  Bool, false, ◌&&◌, ◌||◌, Option, none, some, List, [], ◌∷◌, Text, ◌==◌, contains, is_empty, any,
  map, unwrap_or, if◌then◌else◌,
}
use switch_configurator.Models.Snmp.{
  AllowedHost, network, SnmpCommunity, SnmpReads, SnmpReadsMode, SnmpConfig, allowed_host_eq,
  snmp_reads_mode_eq,
}
use switch_configurator.Models.SwitchConfig.{SwitchConfig}
use switch_configurator.Config.Result.{Result, ok, ◌>>=◌}

abbrev pub has_auto : SnmpCommunity → Bool
has_auto community = contains community.allowed_hosts AllowedHost.auto

abbrev pub unrestricted_community : Option SnmpCommunity → Bool
unrestricted_community none = false
unrestricted_community (some community) = is_empty community.allowed_hosts

-- `reads_default`: the service's own community, which lists no host
abbrev pub reads_default : Option SnmpReads → Bool
reads_default none = false
reads_default (some reads) =
    reads.mode == SnmpReadsMode.auto && unrestricted_community reads.community

abbrev pub community_has_auto : Option SnmpCommunity → Bool
community_has_auto none = false
community_has_auto (some community) = has_auto community

abbrev pub reads_has_auto : Option SnmpReads → Bool
reads_has_auto none = false
reads_has_auto (some reads) = community_has_auto reads.community

unfoldable pub needs_resolution : Option SnmpConfig → Bool
needs_resolution none = false
needs_resolution (some snmp) =
    any has_auto snmp.communities || reads_has_auto snmp.reads || reads_default snmp.reads

unfoldable pub replace_auto : AllowedHost → List AllowedHost → List AllowedHost
replace_auto here hosts = map (λ h. if h == AllowedHost.auto then here else h) hosts

abbrev pub resolve_in_community : AllowedHost → SnmpCommunity → SnmpCommunity
resolve_in_community here community = record community {
  allowed_hosts = replace_auto here community.allowed_hosts;
}

abbrev pub resolve_reads_community :
    AllowedHost → Bool → Option SnmpCommunity → Option SnmpCommunity
resolve_reads_community here default_reads none = none
resolve_reads_community here default_reads (some community) = some (
    resolve_in_community here
      (if default_reads then record community { allowed_hosts = here ∷ [] } else community))

abbrev pub resolve_in_reads : AllowedHost → Option SnmpReads → Option SnmpReads
resolve_in_reads here none = none
resolve_in_reads here (some reads) = some record reads {
  community = resolve_reads_community here (reads_default (some reads)) reads.community;
}

unfoldable pub resolve_hosts : AllowedHost → Option SnmpConfig → Option SnmpConfig
resolve_hosts here none = none
resolve_hosts here (some snmp) = some record snmp {
  communities = map (resolve_in_community here) snmp.communities;
  reads = resolve_in_reads here snmp.reads;
}

unfoldable pub resolve_auto_hosts : (Text → Result Text) → SwitchConfig → Result SwitchConfig
resolve_auto_hosts local_address_towards switch =
    if needs_resolution switch.snmp
    then (do
      local ← local_address_towards (unwrap_or switch.management_ip [])
      ok record switch { snmp = resolve_hosts (network local) switch.snmp })
    else ok switch
