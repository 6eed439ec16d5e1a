-- ===== src/Models/Network.antt =====
-- models.rs: VLANs, ports and port mirrors.
use switch_configurator.Prelude.{
  ℕ, Bool, true, false, Option, none, some, List, [], Text, Eq, derived_eq, is_empty, any,
  if◌then◌else◌, ℕ_discrete, filter_map,
}
use switch_configurator.Models.Hardware.{SpeedDuplex}

pub data VlanIpConfig : Type 0 where
  -- `None`
  unset : VlanIpConfig
  dhcp : VlanIpConfig
  static : Text → Text → VlanIpConfig

pub record Vlan : Type 0 where
  pub id : ℕ
  pub name : Text
  pub description : Option Text
  pub ip_config : VlanIpConfig

pub data PortMode : Type 0 where
  access trunk : PortMode

pub data VlanRef : Type 0 where
  id : ℕ → VlanRef
  name : Text → VlanRef

pub record Port : Type 0 where
  pub port_id : Text
  pub mode : PortMode
  pub vlan : ℕ
  pub tagged_vlans : List ℕ
  pub description : Option Text
  pub enabled : Bool
  pub poe_enabled : Bool
  pub mac_notify : Bool
  pub speed_duplex : SpeedDuplex
  pub vlan_name : Option Text
  pub tagged_vlan_refs : List VlanRef

pub data MirrorDirection : Type 0 where
  rx tx both : MirrorDirection

pub record PortMirror : Type 0 where
  pub session_id : Text
  pub source_ports : List Text
  pub destination_port : Text
  pub direction : MirrorDirection

unfoldable pub inferred_mode : Port → PortMode
inferred_mode port = if is_empty port.tagged_vlans then access else trunk

-- The wire form of a port, with the defaults filled in.
pub record PortDe : Type 0 where
  pub port_id : Text
  pub mode : PortMode
  pub vlan : VlanRef
  pub tagged_vlans : List VlanRef
  pub description : Option Text
  pub enabled : Bool
  pub poe_enabled : Bool
  pub mac_notify : Bool
  pub speed_duplex : SpeedDuplex

abbrev pub is_name : VlanRef → Bool
is_name (id n) = false
is_name (name s) = true

abbrev pub ref_id : VlanRef → Option ℕ
ref_id (id n) = some n
ref_id (name s) = none

abbrev pub ref_name : VlanRef → Option Text
ref_name (id n) = none
ref_name (name s) = some s

abbrev vlan_or_sentinel : VlanRef → ℕ
vlan_or_sentinel (id n) = n
vlan_or_sentinel (name s) = 1

-- `Port::deserialize` behind the derived reading of `PortDe`
unfoldable pub port_of_wire : PortDe → Port
unfolding any filter_map
port_of_wire de = record {
  port_id = de.port_id;
  mode = de.mode;
  vlan = vlan_or_sentinel de.vlan;
  tagged_vlans = if any is_name de.tagged_vlans then [] else filter_map ref_id de.tagged_vlans;
  description = de.description;
  enabled = de.enabled;
  poe_enabled = de.poe_enabled;
  mac_notify = de.mac_notify;
  speed_duplex = de.speed_duplex;
  vlan_name = ref_name de.vlan;
  tagged_vlan_refs = if any is_name de.tagged_vlans then de.tagged_vlans else [];
}

pub VlanIpConfig-discrete : Discrete VlanIpConfig
VlanIpConfig-discrete = hlevel ℕ_discrete

pub PortMode-discrete : Discrete PortMode
PortMode-discrete = hlevel

pub PortMirror-discrete : Discrete PortMirror
PortMirror-discrete = hlevel ℕ_discrete

pub OptionText-discrete : Discrete (Option Text)
OptionText-discrete = hlevel ℕ_discrete

pub OptionId-discrete : Discrete (Option ℕ)
OptionId-discrete = hlevel ℕ_discrete

pub Bool-discrete : Discrete Bool
Bool-discrete = hlevel

instance unfoldable pub vlan_ip_config_eq : Eq VlanIpConfig
unfolding derived_eq VlanIpConfig-discrete ℕ_discrete
vlan_ip_config_eq = derived_eq VlanIpConfig-discrete

instance unfoldable pub port_mode_eq : Eq PortMode
unfolding derived_eq PortMode-discrete
port_mode_eq = derived_eq PortMode-discrete

instance unfoldable pub port_mirror_eq : Eq PortMirror
unfolding derived_eq PortMirror-discrete ℕ_discrete
port_mirror_eq = derived_eq PortMirror-discrete

instance unfoldable pub option_text_eq : Eq (Option Text)
unfolding derived_eq OptionText-discrete ℕ_discrete
option_text_eq = derived_eq OptionText-discrete

instance unfoldable pub option_id_eq : Eq (Option ℕ)
unfolding derived_eq OptionId-discrete ℕ_discrete
option_id_eq = derived_eq OptionId-discrete

instance unfoldable pub bool_eq : Eq Bool
unfolding derived_eq Bool-discrete
bool_eq = derived_eq Bool-discrete
