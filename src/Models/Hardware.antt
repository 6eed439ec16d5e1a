-- ===== src/Models/Hardware.antt =====
-- models.rs: vendors, switch models and what their ports can do.
pub mod Ports
use switch_configurator.Prelude.{
  ℕ, ◌≡◌, refl, Bool, true, false, List, [], ◌∷◌, Text, Eq, derived_eq, contains, codes,
}

pub data Vendor : Type 0 where
  aruba fortiswitch cisco : Vendor

pub data SwitchModel : Type 0 where
  aruba2530_24g_poe aruba2530_8g_poe aruba2530_48g_2sfp aruba2540_24g aruba2540_48g_4sfp :
      SwitchModel
  aruba2930f fortiswitch124f_fpoe cisco_catalyst9300_24p_upoe : SwitchModel

pub data SpeedDuplex : Type 0 where
  auto ten_half ten_full hundred_half hundred_full thousand_full ten_g_full : SpeedDuplex

pub Vendor-discrete : Discrete Vendor
Vendor-discrete = hlevel

pub SwitchModel-discrete : Discrete SwitchModel
SwitchModel-discrete = hlevel

pub SpeedDuplex-discrete : Discrete SpeedDuplex
SpeedDuplex-discrete = hlevel

instance unfoldable pub vendor_eq : Eq Vendor
unfolding derived_eq Vendor-discrete
vendor_eq = derived_eq Vendor-discrete

instance unfoldable pub switch_model_eq : Eq SwitchModel
unfolding derived_eq SwitchModel-discrete
switch_model_eq = derived_eq SwitchModel-discrete

instance unfoldable pub speed_duplex_eq : Eq SpeedDuplex
unfolding derived_eq SpeedDuplex-discrete
speed_duplex_eq = derived_eq SpeedDuplex-discrete

unfoldable pub vendor : SwitchModel → Vendor
vendor aruba2530_24g_poe = aruba
vendor aruba2530_8g_poe = aruba
vendor aruba2530_48g_2sfp = aruba
vendor aruba2540_24g = aruba
vendor aruba2540_48g_4sfp = aruba
vendor aruba2930f = aruba
vendor fortiswitch124f_fpoe = fortiswitch
vendor cisco_catalyst9300_24p_upoe = cisco

abbrev pub gigabit_speeds : List SpeedDuplex
gigabit_speeds = auto ∷ ten_half ∷ ten_full ∷ hundred_half ∷ hundred_full ∷ thousand_full ∷ []

abbrev ten_gigabit_speeds : List SpeedDuplex
ten_gigabit_speeds =
    auto ∷ ten_half ∷ ten_full ∷ hundred_half ∷ hundred_full ∷ thousand_full ∷ ten_g_full ∷ []

unfoldable pub supported_speeds : SwitchModel → List SpeedDuplex
supported_speeds aruba2530_24g_poe = gigabit_speeds
supported_speeds aruba2530_8g_poe = gigabit_speeds
supported_speeds aruba2530_48g_2sfp = ten_gigabit_speeds
supported_speeds aruba2540_24g = gigabit_speeds
supported_speeds aruba2540_48g_4sfp = ten_gigabit_speeds
supported_speeds aruba2930f = ten_gigabit_speeds
supported_speeds fortiswitch124f_fpoe = gigabit_speeds
supported_speeds cisco_catalyst9300_24p_upoe = ten_gigabit_speeds

unfoldable pub supports_speed : SwitchModel → SpeedDuplex → Bool
unfolding supported_speeds
supports_speed m speed = contains (supported_speeds m) speed

unfoldable pub has_10g_uplinks : SwitchModel → Bool
has_10g_uplinks aruba2530_48g_2sfp = true
has_10g_uplinks aruba2540_48g_4sfp = true
has_10g_uplinks aruba2930f = true
has_10g_uplinks cisco_catalyst9300_24p_upoe = true
has_10g_uplinks _ = false

unfoldable pub total_ports : SwitchModel → ℕ
total_ports aruba2530_8g_poe = 8
total_ports aruba2530_24g_poe = 26
total_ports aruba2530_48g_2sfp = 50
total_ports aruba2540_24g = 28
total_ports aruba2540_48g_4sfp = 52
total_ports aruba2930f = 52
total_ports fortiswitch124f_fpoe = 28
total_ports cisco_catalyst9300_24p_upoe = 24

unfoldable pub supports_poe : SwitchModel → Bool
supports_poe aruba2530_24g_poe = true
supports_poe aruba2530_8g_poe = true
supports_poe aruba2930f = true
supports_poe fortiswitch124f_fpoe = true
supports_poe cisco_catalyst9300_24p_upoe = true
supports_poe _ = false

unfoldable pub implicit_vlans : SwitchModel → List ℕ
implicit_vlans m = 1 ∷ []

unfoldable pub supports_vlan_description : SwitchModel → Bool
supports_vlan_description fortiswitch124f_fpoe = true
supports_vlan_description cisco_catalyst9300_24p_upoe = true
supports_vlan_description _ = false

unfoldable pub max_vlan_name_length : SwitchModel → ℕ
max_vlan_name_length fortiswitch124f_fpoe = 63
max_vlan_name_length _ = 32

unfoldable pub product_numbers : SwitchModel → List Text
product_numbers aruba2530_24g_poe = codes "J9773A" ∷ codes "J9779A" ∷ codes "J9854A" ∷ []
product_numbers aruba2530_8g_poe = codes "J9774A" ∷ codes "J9780A" ∷ []
product_numbers aruba2530_48g_2sfp = codes "J9855A" ∷ []
product_numbers aruba2540_24g = codes "JL354A" ∷ []
product_numbers aruba2540_48g_4sfp = codes "JL355A" ∷ []
product_numbers aruba2930f =
    codes "JL253A"
    ∷ codes "JL254A"
    ∷ codes "JL255A"
    ∷ codes "JL256A"
    ∷ codes "JL258A"
    ∷ codes "JL261A"
    ∷ codes "JL262A"
    ∷ codes "JL263A"
    ∷ codes "JL264A"
    ∷ []
product_numbers fortiswitch124f_fpoe = codes "FortiSwitch-124F-FPOE" ∷ codes "S124F" ∷ []
product_numbers cisco_catalyst9300_24p_upoe =
    codes "c9300-24u" ∷ codes "C9300-24U" ∷ codes "C9300-24P" ∷ []

unfoldable pub uses_legacy_mirror_syntax : SwitchModel → Bool
uses_legacy_mirror_syntax aruba2530_24g_poe = true
uses_legacy_mirror_syntax aruba2530_8g_poe = true
uses_legacy_mirror_syntax aruba2530_48g_2sfp = true
uses_legacy_mirror_syntax aruba2540_24g = true
uses_legacy_mirror_syntax aruba2540_48g_4sfp = true
uses_legacy_mirror_syntax _ = false

unfoldable pub to_aruba_syntax : SpeedDuplex → Text
to_aruba_syntax auto = codes "auto"
to_aruba_syntax ten_half = codes "10-half"
to_aruba_syntax ten_full = codes "10-full"
to_aruba_syntax hundred_half = codes "100-half"
to_aruba_syntax hundred_full = codes "100-full"
to_aruba_syntax thousand_full = codes "1000-full"
to_aruba_syntax ten_g_full = codes "10g-full"

unfoldable pub to_cisco_speed : SpeedDuplex → Text
to_cisco_speed auto = codes "auto"
to_cisco_speed ten_half = codes "10"
to_cisco_speed ten_full = codes "10"
to_cisco_speed hundred_half = codes "100"
to_cisco_speed hundred_full = codes "100"
to_cisco_speed thousand_full = codes "1000"
to_cisco_speed ten_g_full = codes "10000"

unfoldable pub to_cisco_duplex : SpeedDuplex → Text
to_cisco_duplex auto = codes "auto"
to_cisco_duplex ten_half = codes "half"
to_cisco_duplex hundred_half = codes "half"
to_cisco_duplex ten_full = codes "full"
to_cisco_duplex hundred_full = codes "full"
to_cisco_duplex thousand_full = codes "full"
to_cisco_duplex ten_g_full = codes "full"

speed_test : supports_speed aruba2540_24g ten_g_full ≡ false
unfolding supports_speed contains speed_duplex_eq
speed_test = refl
