-- ===== src/Models/SwitchConfig.antt =====
-- models.rs and config.rs: the configuration of one switch. A path is its text. `vendor_specific`
-- holds JSON values that no modelled function reads; here each stands as its text.
use switch_configurator.Prelude.{ℕ, Bool, false, Option, List, Text}
use switch_configurator.Prelude.HashMap.{HashMap}
use switch_configurator.Models.Hardware.{SwitchModel}
use switch_configurator.Models.Network.{Vlan, Port, PortMirror}
use switch_configurator.Models.Snmp.{SnmpConfig}

pub data ConnectionType : Type 0 where
  ssh serial : ConnectionType

pub record JumpHost : Type 0 where
  pub host : Text
  pub username : Option Text
  pub port : Option ℕ
  pub ssh_key_path : Option Text
  pub password : Option Text

pub record ResolvedJumpHost : Type 0 where
  pub hostname : Text
  pub port : ℕ
  pub username : Text
  pub ssh_key_path : Option Text
  pub password : Option Text

pub record Credentials : Type 0 where
  pub username : Text
  pub password : Option Text
  pub ssh_key_path : Option Text
  pub port : ℕ
  pub connection_type : ConnectionType
  pub serial_device : Option Text
  pub baud_rate : ℕ
  pub enable_secret : Option Text
  pub jump_hosts : Option (List JumpHost)

pub record Settings : Type 0 where
  pub ssh_timeout_secs : ℕ
  pub max_retries : ℕ
  pub enforce_port_config : Bool
  pub snmp_port : ℕ

abbrev pub default_settings : Settings
default_settings = record {
  ssh_timeout_secs = 30;
  max_retries = 3;
  enforce_port_config = false;
  snmp_port = 161;
}

pub data FailureAction : Type 0 where
  rollback save_anyway manual : FailureAction

pub data RollbackMethod : Type 0 where
  reload revert_commands restore_backup : RollbackMethod

pub data TestType : Type 0 where
  command_execution : Text → TestType
  ping_management_ip : ℕ → TestType
  tcp_port_check : List ℕ → TestType
  gateway_reachable : Text → Option ℕ → TestType
  device_reachable : Text → Text → ℕ → TestType
  port_status : List Text → TestType
  vlan_membership : TestType

-- A duration is a number of milliseconds.
pub record ValidationTest : Type 0 where
  pub test_type : TestType
  pub timeout : ℕ
  pub required : Bool

pub record ValidationConfig : Type 0 where
  pub enabled : Bool
  pub timeout : ℕ
  pub on_failure : FailureAction
  pub rollback_method : RollbackMethod
  pub tests : List ValidationTest

pub record SwitchConfig : Type 0 where
  pub id : Text
  pub hostname : Option Text
  pub model : Option SwitchModel
  pub management_ip : Option Text
  pub credentials : Option Credentials
  pub vlans : List Vlan
  pub ports : List Port
  pub port_mirrors : List PortMirror
  pub snmp : Option SnmpConfig
  pub management_vlan : Option ℕ
  pub validation : Option ValidationConfig
  pub vendor_specific : HashMap Text Text
  pub settings : Settings
