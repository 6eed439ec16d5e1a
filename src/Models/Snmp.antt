-- ===== src/Models/Snmp.antt =====
-- models.rs: the SNMP configuration.
use switch_configurator.Prelude.{
  Bool, ◌||◌, Option, List, Text, Eq, derived_eq, ℕ_discrete, is_some, codes,
}

pub data AllowedHost : Type 0 where
  auto : AllowedHost
  network : Text → AllowedHost

pub data SnmpAccess : Type 0 where
  unrestricted manager operator : SnmpAccess

pub record SnmpCommunity : Type 0 where
  pub name : Text
  pub access : SnmpAccess
  pub name_file : Option Text
  pub name_credential : Option Text
  pub allowed_hosts : List AllowedHost

pub record SnmpTrapReceiver : Type 0 where
  pub host : Text
  pub community : Text
  pub version : Option Text

pub data TrapType : Type 0 where
  mac_notify link_change all : TrapType

pub data SnmpReadsMode : Type 0 where
  auto off : SnmpReadsMode

pub record SnmpReads : Type 0 where
  pub mode : SnmpReadsMode
  pub community : Option SnmpCommunity

pub record SnmpConfig : Type 0 where
  pub communities : List SnmpCommunity
  pub trap_receivers : List SnmpTrapReceiver
  pub enabled_traps : List TrapType
  pub reads : Option SnmpReads

unfoldable pub has_reference : SnmpCommunity → Bool
has_reference c = is_some c.name_file || is_some c.name_credential

-- `String::from(AllowedHost)`
unfoldable pub host_text : AllowedHost → Text
host_text auto = codes "auto"
host_text (network text) = text

pub AllowedHost-discrete : Discrete AllowedHost
AllowedHost-discrete = hlevel ℕ_discrete

pub SnmpAccess-discrete : Discrete SnmpAccess
SnmpAccess-discrete = hlevel

pub TrapType-discrete : Discrete TrapType
TrapType-discrete = hlevel

pub SnmpReadsMode-discrete : Discrete SnmpReadsMode
SnmpReadsMode-discrete = hlevel

instance unfoldable pub allowed_host_eq : Eq AllowedHost
unfolding derived_eq AllowedHost-discrete ℕ_discrete
allowed_host_eq = derived_eq AllowedHost-discrete

instance unfoldable pub snmp_access_eq : Eq SnmpAccess
unfolding derived_eq SnmpAccess-discrete
snmp_access_eq = derived_eq SnmpAccess-discrete

instance unfoldable pub trap_type_eq : Eq TrapType
unfolding derived_eq TrapType-discrete
trap_type_eq = derived_eq TrapType-discrete

instance unfoldable pub snmp_reads_mode_eq : Eq SnmpReadsMode
unfolding derived_eq SnmpReadsMode-discrete
snmp_reads_mode_eq = derived_eq SnmpReadsMode-discrete
