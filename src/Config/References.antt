-- ===== src/Config/References.antt =====
-- config.rs: `validate_vlan_references_inner` and its two callers.
pub mod Checked
use switch_configurator.Prelude.{
  ℕ, Bool, true, false, not, ◌&&◌, ◌||◌, Option, none, some, List, [], ◌∷◌, ◌++◌, Text, ◌==◌,
  nat_eq, text_eq, ltb, contains, any, filter, map, if◌then◌else◌, unwrap_or,
}
use switch_configurator.Prelude.Str.{utf8_len}
use switch_configurator.Models.Hardware.{
  SwitchModel, max_vlan_name_length, implicit_vlans, supports_speed,
}
use switch_configurator.Models.Network.{Vlan, Port, PortMirror}
use switch_configurator.Models.SwitchConfig.{SwitchConfig}
use switch_configurator.Config.Result.{
  ConfigError, Result, ok, err, ◌>>=◌, vlan_name_too_long, vlan_name_like_range, reference_errors,
  missing_fields,
}

-- What `Regex::new(r"\d+-\d+")` of the regex crate finds in a text.
abbrev pub RangePattern : Type 0
RangePattern = Text → Bool

unfoldable pub check_vlan_name : RangePattern → SwitchModel → Vlan → Option ConfigError
check_vlan_name range_pattern model vlan =
    if ltb (max_vlan_name_length model) (utf8_len vlan.name)
    then some (vlan_name_too_long vlan.id vlan.name (max_vlan_name_length model))
    else if range_pattern vlan.name
    then some (vlan_name_like_range vlan.id vlan.name)
    else none

-- the first error of the loop over the VLANs
unfoldable pub check_vlan_names : RangePattern → SwitchModel → List Vlan → Option ConfigError
check_vlan_names range_pattern model [] = none
check_vlan_names range_pattern model (v ∷ vs) =
    let rest = check_vlan_names range_pattern model vs in
    elim (check_vlan_name range_pattern model v) [ some e ↦ some e | none ↦ rest ]

-- `defined_vlans`; a set, of which only membership is asked
unfoldable pub defined_vlans : SwitchModel → List Vlan → List ℕ
defined_vlans model vlans = map (λ v. v.id) vlans ++ implicit_vlans model

-- Does the port set `has_errors`?
unfoldable pub port_has_errors : Bool → SwitchModel → List ℕ → Port → Bool
port_has_errors strict model defined port =
    not (contains defined port.vlan)
    || not (supports_speed model port.speed_duplex)
    || strict && any (λ v. not (contains defined v)) port.tagged_vlans

-- Lenient mode drops the tagged VLANs that are not defined.
unfoldable pub filter_tags : Bool → List ℕ → Port → Port
filter_tags strict defined port =
    if strict
    then port
    else record port { tagged_vlans = filter (λ v. contains defined v) port.tagged_vlans }

unfoldable pub mirrors_have_errors : List Port → List PortMirror → Bool
mirrors_have_errors ports mirrors =
    any (λ m. contains (map (λ p. p.port_id) ports) m.destination_port) mirrors

-- The code takes the hostname and the model for granted: with one of them missing it panics, which
-- the first error stands for.
unfoldable pub validate_vlan_references_inner :
    RangePattern → SwitchConfig → Bool → Result SwitchConfig
validate_vlan_references_inner range_pattern switch strict = elim switch.hostname [
  | none ↦ err (missing_fields [])
  | some hostname ↦ elim switch.model [
    | none ↦ err (missing_fields [])
    | some model ↦ elim (check_vlan_names range_pattern model switch.vlans) [
      | some e ↦ err e
      | none ↦
          let defined = defined_vlans model switch.vlans in
          let ports' = map (filter_tags strict defined) switch.ports in
          if any (port_has_errors strict model defined) switch.ports
            || mirrors_have_errors ports' switch.port_mirrors
          then err (reference_errors hostname)
          else ok (record switch { ports = ports' })
    ]
  ]
]

unfoldable pub validate_vlan_references_strict : RangePattern → SwitchConfig → Result SwitchConfig
unfolding validate_vlan_references_inner
validate_vlan_references_strict range_pattern switch =
    validate_vlan_references_inner range_pattern switch true

unfoldable pub validate_vlan_references : RangePattern → SwitchConfig → Result SwitchConfig
unfolding validate_vlan_references_inner
validate_vlan_references range_pattern switch =
    validate_vlan_references_inner range_pattern switch false
