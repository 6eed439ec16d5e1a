-- ===== src/SnmpReads.antt =====
-- snmp_reads.rs: the community with which the service itself reads from a switch.
use switch_configurator.Prelude.{
  Bool, false, ◌&&◌, Option, none, some, [], ◌∷◌, ◌++◌, ◌==◌, text_eq, any, is_some, if◌then◌else◌,
}
use switch_configurator.Models.Snmp.{
  SnmpConfig, SnmpReads, SnmpCommunity, SnmpReadsMode, operator, snmp_reads_mode_eq,
}
use switch_configurator.Models.SwitchConfig.{SwitchConfig}

abbrev reads_on : Option SnmpReads → Bool
reads_on none = false
reads_on (some reads) = reads.mode == SnmpReadsMode.auto && is_some reads.community

unfoldable pub reads_enabled : SwitchConfig → Bool
reads_enabled switch = elim switch.snmp [ none ↦ false | some snmp ↦ reads_on snmp.reads ]

abbrev reads_community : Option SnmpReads → Option SnmpCommunity
reads_community none = none
reads_community (some reads) = reads.community

unfoldable pub add_managed : SnmpConfig → SnmpCommunity → SnmpConfig
unfolding any
add_managed effective managed =
    if any (λ c. c.name == managed.name) effective.communities
    then effective
    else record effective {
      communities = effective.communities ++ record managed { access = operator } ∷ [];
    }

unfoldable pub effective_snmp : SwitchConfig → Option SnmpConfig
unfolding reads_enabled add_managed
effective_snmp switch = elim switch.snmp [
  | none ↦ none
  | some snmp ↦
      if reads_enabled switch
      then elim (reads_community snmp.reads) [
        | none ↦ some snmp
        | some managed ↦ some (add_managed snmp managed)
      ]
      else some snmp
]
