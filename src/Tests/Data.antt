-- ===== src/Tests/Data.antt =====
-- A FortiSwitch with two ports, as it is and as it is wanted, and configuration sources for it.
use switch_configurator.Prelude.{
  ℕ, true, false, Option, none, some, List, [], ◌∷◌, Text, codes, nat_eq, text_eq,
}
use switch_configurator.Prelude.HashMap.{insertion_order}
use switch_configurator.Models.Hardware.{SpeedDuplex, fortiswitch124f_fpoe}
use switch_configurator.Models.Network.{Vlan, unset, Port, access, PortMirror, both}
use switch_configurator.Models.Snmp.{SnmpConfig, SnmpCommunity, operator, link_change, trap_type_eq}
use switch_configurator.Models.SwitchConfig.{SwitchConfig, Credentials, ssh, default_settings}
use switch_configurator.Models.State.{SwitchState}
use switch_configurator.Diff.{Orders}
use switch_configurator.Config.Merge.{ConfigWithMetadata}

abbrev pub orders : Orders
orders = record { ids = insertion_order; texts = insertion_order; traps = insertion_order }

abbrev pub vlan_named : ℕ → Text → Vlan
vlan_named n s = record { id = n; name = s; description = none; ip_config = unset }

abbrev pub office : Vlan
office = vlan_named 10 (codes "Office")

abbrev pub voice : Vlan
voice = vlan_named 20 (codes "Voice")

abbrev pub port_on : Text → ℕ → List ℕ → Port
port_on s v tags = record {
  port_id = s;
  mode = access;
  vlan = v;
  tagged_vlans = tags;
  description = none;
  enabled = true;
  poe_enabled = false;
  mac_notify = false;
  speed_duplex = SpeedDuplex.auto;
  vlan_name = none;
  tagged_vlan_refs = [];
}

abbrev pub community : Text → Option Text → SnmpCommunity
community s file = record {
  name = s;
  access = operator;
  name_file = file;
  name_credential = none;
  allowed_hosts = [];
}

abbrev pub monitoring : SnmpConfig
monitoring = record {
  communities = community (codes "public") none ∷ [];
  trap_receivers = [];
  enabled_traps = link_change ∷ [];
  reads = none;
}

abbrev pub mirror : PortMirror
mirror = record {
  session_id = codes "1";
  source_ports = codes "port1" ∷ [];
  destination_port = codes "port9";
  direction = both;
}

abbrev pub admin : Credentials
admin = record {
  username = codes "admin";
  password = none;
  ssh_key_path = none;
  port = 22;
  connection_type = ssh;
  serial_device = none;
  baud_rate = 115200;
  enable_secret = none;
  jump_hosts = none;
}

abbrev pub wanted : SwitchConfig
wanted = record {
  id = codes "sw1";
  hostname = some (codes "core");
  model = some fortiswitch124f_fpoe;
  management_ip = some (codes "192.0.2.1");
  credentials = some admin;
  vlans = office ∷ voice ∷ [];
  ports = port_on (codes "port1") 10 (20 ∷ []) ∷ port_on (codes "port2") 20 [] ∷ [];
  port_mirrors = mirror ∷ [];
  snmp = some monitoring;
  management_vlan = some 10;
  validation = none;
  vendor_specific = [];
  settings = default_settings;
}

-- the same with one entry for both ports, as a file has it
abbrev pub submitted : SwitchConfig
submitted = record wanted { ports = port_on (codes "port1-2") 10 (20 ∷ []) ∷ [] }

abbrev pub current_state : SwitchState
current_state = record {
  vlans = vlan_named 1 (codes "default") ∷ vlan_named 30 (codes "Old") ∷ [];
  ports = port_on (codes "port1") 30 [] ∷ port_on (codes "port3") 30 [] ∷ [];
  port_mirrors = [];
  snmp = none;
  management_vlan = some 1;
  warnings = [];
}

-- the main file, and one behind it that calls VLAN 10 something else
abbrev pub sources : List ConfigWithMetadata
sources =
    record {
      switch = record wanted {
        vlans = vlan_named 10 (codes "Extra") ∷ vlan_named 30 (codes "Guests") ∷ [];
        hostname = none;
      };
      merge_priority = 500;
      source_file = codes "extra.yaml";
    }
    ∷ record { switch = wanted; merge_priority = 10; source_file = codes "main.yaml" }
    ∷ []

abbrev pub old_id : ℕ
old_id = 30

abbrev pub gone : List ℕ
gone = old_id ∷ []

-- a trunk with the VLAN that goes among its tagged ones, one with it as its untagged one
abbrev pub trunk_port : Port
trunk_port = port_on (codes "port1") 10 (20 ∷ old_id ∷ [])

abbrev pub native_port : Port
native_port = port_on (codes "port1") old_id (20 ∷ [])
