-- ===== src/Config/Snmp.antt =====
-- secrets.rs: `labelled_communities` and `check_snmp_secret_sources`; allowed_hosts.rs:
-- `check_vendor_support`.
use switch_configurator.Prelude.{
  ℕ, suc, Bool, false, not, ◌&&◌, Option, none, some, List, [], ◌∷◌, ◌++◌, Text, codes, is_empty,
  is_some, any, if◌then◌else◌,
}
use switch_configurator.Prelude.Decimal.{to_string}
use switch_configurator.Models.Hardware.{fortiswitch, vendor}
use switch_configurator.Models.Snmp.{
  SnmpConfig, SnmpCommunity, SnmpReads, SnmpReadsMode, has_reference,
}
use switch_configurator.Models.SwitchConfig.{SwitchConfig}
use switch_configurator.SnmpReads.{reads_enabled}
use switch_configurator.Config.Result.{
  Result, ok, err, ◌>>=◌, two_sources, no_source, reads_unsupported, hosts_unsupported,
}

-- the communities of the list, each with its place, from `i` on
unfoldable pub numbered_communities : ℕ → List SnmpCommunity → List (Text × SnmpCommunity)
numbered_communities i [] = []
numbered_communities i (c ∷ cs) =
    (codes "SNMP community #" ++ to_string i, c) ∷ numbered_communities (suc i) cs

abbrev reads_community : Option SnmpReads → List (Text × SnmpCommunity)
reads_community none = []
reads_community (some r) = elim r.mode [
  | SnmpReadsMode.off ↦ []
  | SnmpReadsMode.auto ↦ elim r.community [
    | none ↦ []
    | some c ↦ (codes "snmp.reads.community", c) ∷ []
  ]
]

unfoldable pub labelled_communities : SnmpConfig → List (Text × SnmpCommunity)
unfolding numbered_communities
labelled_communities snmp = numbered_communities 1 snmp.communities ++ reads_community snmp.reads

unfoldable pub check_source : Text × SnmpCommunity → Result (Unit {0})
check_source (label, c) =
    if is_some c.name_file && is_some c.name_credential
    then err (two_sources label)
    else if is_empty c.name && not (has_reference c)
    then err (no_source label)
    else ok tt

unfoldable pub check_sources : List (Text × SnmpCommunity) → Result (Unit {0})
check_sources [] = ok tt
check_sources (c ∷ cs) = check_source c >>= λ _. check_sources cs

unfoldable pub check_snmp_secret_sources : SwitchConfig → Result (Unit {0})
check_snmp_secret_sources switch = elim switch.snmp [
  | none ↦ ok tt
  | some snmp ↦ check_sources (labelled_communities snmp)
]

abbrev pub restricted : Option SnmpConfig → Bool
restricted none = false
restricted (some snmp) = any (λ c. not (is_empty c.allowed_hosts)) snmp.communities

unfoldable pub check_vendor_support : SwitchConfig → Result (Unit {0})
check_vendor_support switch = elim switch.model [
  | none ↦ ok tt
  | some model ↦ elim (vendor model) [
    | fortiswitch ↦ ok tt
    | _ ↦
        if reads_enabled switch
        then err reads_unsupported
        else if restricted switch.snmp
        then err hosts_unsupported
        else ok tt
  ]
]
