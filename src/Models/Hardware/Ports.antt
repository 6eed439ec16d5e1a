-- ===== src/Models/Hardware/Ports.antt =====
-- models.rs: the capabilities of each port of a switch model.
use switch_configurator.Prelude.{
  ℕ, zero, suc, ◌≡◌, refl, Bool, true, false, ◌&&◌, ◌||◌, Option, none, some, List, [], ◌∷◌, Text,
  contains, codes, map, filter, filter_map, leb, nat_beq, if◌then◌else◌, is_some,
}
use switch_configurator.Prelude.Str.{split, trim_start_matches}
use switch_configurator.Prelude.Decimal.{parse_u16, parse_unsigned, to_string}
use switch_configurator.Models.Hardware.{
  aruba, fortiswitch, cisco, SwitchModel, aruba2530_24g_poe, aruba2530_8g_poe, aruba2530_48g_2sfp,
  aruba2540_24g, aruba2540_48g_4sfp, aruba2930f, fortiswitch124f_fpoe, cisco_catalyst9300_24p_upoe,
  SpeedDuplex, thousand_full, ten_g_full, vendor, gigabit_speeds, total_ports, speed_duplex_eq,
}

pub data PortType : Type 0 where
  copper sfp sfp_plus qsfp_plus qsfp28 : PortType

pub data PoeStandard : Type 0 where
  poe poe_plus poe_plus_plus poe_plus_plus_plus : PoeStandard

unfoldable pub max_watts : PoeStandard → ℕ
max_watts poe = 15
max_watts poe_plus = 30
max_watts poe_plus_plus = 60
max_watts poe_plus_plus_plus = 90

pub record PortCapabilities : Type 0 where
  pub port_type : PortType
  pub poe_support : Option PoeStandard
  pub supported_speeds : List SpeedDuplex
  pub max_speed_gbps : ℕ
  pub is_uplink : Bool
  pub port_number : ℕ

unfoldable pub standard_1g_copper : ℕ → PortCapabilities
standard_1g_copper port_num = record {
  port_type = copper;
  poe_support = none;
  supported_speeds = gigabit_speeds;
  max_speed_gbps = 1;
  is_uplink = false;
  port_number = port_num;
}

unfoldable pub poe_plus_1g_copper : ℕ → PortCapabilities
unfolding standard_1g_copper
poe_plus_1g_copper port_num = record (standard_1g_copper port_num) { poe_support = some poe_plus }

unfoldable pub sfp_plus_10g_uplink : ℕ → PortCapabilities
sfp_plus_10g_uplink port_num = record {
  port_type = sfp_plus;
  poe_support = none;
  supported_speeds = thousand_full ∷ ten_g_full ∷ [];
  max_speed_gbps = 10;
  is_uplink = true;
  port_number = port_num;
}

-- `PortCapabilities::supports_poe`
unfoldable pub has_poe : PortCapabilities → Bool
has_poe cap = is_some cap.poe_support

unfoldable pub max_poe_watts : PortCapabilities → ℕ
unfolding max_watts
max_poe_watts cap = elim cap.poe_support [ none ↦ 0 | some std ↦ max_watts std ]

-- the last of the parts that `split` gives
last_part : List Text → Text
last_part [] = []
last_part (s ∷ []) = s
last_part (s ∷ t ∷ ts) = last_part (t ∷ ts)

unfoldable pub parse_port_number : SwitchModel → Text → Option ℕ
unfolding last_part split trim_start_matches parse_unsigned vendor
parse_port_number m port_id = elim (vendor m) [
  | aruba ↦ parse_u16 port_id
  | cisco ↦ parse_u16 (last_part (split b'/' port_id))
  | fortiswitch ↦ parse_u16 (trim_start_matches (codes "port") port_id)
]

abbrev between : ℕ → ℕ → ℕ → Bool
between lo hi n = leb lo n && leb n hi

-- `port_capabilities` behind `parse_port_number`
unfoldable pub numbered_port_capabilities : SwitchModel → ℕ → Option PortCapabilities
unfolding standard_1g_copper poe_plus_1g_copper sfp_plus_10g_uplink
numbered_port_capabilities aruba2530_24g_poe n =
    if between 1 24 n
    then some (poe_plus_1g_copper n)
    else if between 25 26 n
    then some (record {
      port_type = sfp;
      poe_support = none;
      supported_speeds = thousand_full ∷ [];
      max_speed_gbps = 1;
      is_uplink = true;
      port_number = n;
    })
    else none
numbered_port_capabilities aruba2530_8g_poe n =
    if between 1 8 n
    then some (
        if nat_beq n 1 || nat_beq n 3 || nat_beq n 5 || nat_beq n 7
        then poe_plus_1g_copper n
        else standard_1g_copper n)
    else none
numbered_port_capabilities aruba2530_48g_2sfp n =
    if between 1 48 n
    then some (standard_1g_copper n)
    else if between 49 50 n
    then some (sfp_plus_10g_uplink n)
    else none
numbered_port_capabilities aruba2540_24g n =
    if between 1 24 n
    then some (standard_1g_copper n)
    else if between 25 28 n
    then some (sfp_plus_10g_uplink n)
    else none
numbered_port_capabilities aruba2540_48g_4sfp n =
    if between 1 48 n
    then some (standard_1g_copper n)
    else if between 49 52 n
    then some (sfp_plus_10g_uplink n)
    else none
numbered_port_capabilities aruba2930f n =
    if between 1 48 n
    then some (poe_plus_1g_copper n)
    else if between 49 52 n
    then some (sfp_plus_10g_uplink n)
    else none
numbered_port_capabilities fortiswitch124f_fpoe n =
    if between 1 24 n
    then some (poe_plus_1g_copper n)
    else if between 25 28 n
    then some (sfp_plus_10g_uplink n)
    else none
numbered_port_capabilities cisco_catalyst9300_24p_upoe n =
    if between 1 24 n
    then some (record {
      port_type = copper;
      poe_support = some poe_plus_plus;
      supported_speeds = gigabit_speeds;
      max_speed_gbps = 1;
      is_uplink = false;
      port_number = n;
    })
    else none

unfoldable pub port_capabilities : SwitchModel → Text → Option PortCapabilities
unfolding parse_port_number numbered_port_capabilities
port_capabilities m port_id = elim (parse_port_number m port_id) [
  | none ↦ none
  | some n ↦ numbered_port_capabilities m n
]

unfoldable pub port_supports_poe : SwitchModel → Text → Bool
unfolding port_capabilities has_poe
port_supports_poe m port_id = elim (port_capabilities m port_id) [
  | none ↦ false
  | some cap ↦ has_poe cap
]

-- the numbers from `from`, as many as the second argument says
unfoldable pub range_from : ℕ → ℕ → List ℕ
range_from from zero = []
range_from from (suc k) = from ∷ range_from (suc from) k

unfoldable pub all_port_capabilities : SwitchModel → List PortCapabilities
unfolding port_capabilities total_ports to_string range_from filter_map
all_port_capabilities m =
    filter_map (λ n. port_capabilities m (to_string n)) (range_from 1 (total_ports m))

unfoldable pub poe_capable_ports : SwitchModel → List ℕ
unfolding all_port_capabilities filter has_poe
poe_capable_ports m = map (λ cap. cap.port_number) (filter has_poe (all_port_capabilities m))

pub data SpeedError : Type 0 where
  invalid_port : Text → SpeedError
  unsupported_speed : Text → SpeedDuplex → List SpeedDuplex → SpeedError

-- `none` is `Ok(())`.
unfoldable pub validate_port_speed : SwitchModel → Text → SpeedDuplex → Option SpeedError
unfolding port_capabilities
validate_port_speed m port_id speed = elim (port_capabilities m port_id) [
  | none ↦ some (invalid_port port_id)
  | some cap ↦
      if contains cap.supported_speeds speed
      then none
      else some (unsupported_speed port_id speed cap.supported_speeds)
]

poe_test : poe_capable_ports aruba2530_8g_poe ≡ 1 ∷ 3 ∷ 5 ∷ 7 ∷ []
unfolding poe_capable_ports
poe_test = refl

cisco_test : parse_port_number cisco_catalyst9300_24p_upoe (codes "GigabitEthernet1/0/24") ≡ some 24
unfolding parse_port_number
cisco_test = refl

fortiswitch_test : parse_port_number fortiswitch124f_fpoe (codes "port24") ≡ some 24
unfolding parse_port_number
fortiswitch_test = refl
