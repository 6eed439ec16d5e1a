-- ===== src/Diff/Ports/Equivalent.antt =====
-- What `ports_equivalent_for_model` compares.
use switch_configurator.Prelude.{
  ℕ, ◌≡◌, ap, refl, Bool, true, false, not, ◌&&◌, Option, List, [], ◌∷◌, arith, Text, ◌==◌, nat_eq,
  text_eq, filter, is_empty, ==_refl, ==_iff, if◌then◌else◌, ◌↔◌,
}
use switch_configurator.Models.Hardware.{SpeedDuplex, speed_duplex_eq}
use switch_configurator.Models.Network.{
  Port, access, trunk, port_mode_eq, option_text_eq, bool_eq, inferred_mode,
}
use switch_configurator.Diff.Ports.{ports_equivalent_for_model, foreign_tags}

-- What a switch is told about a port.
pub record Settled : Type 0 where
  pub port_id : Text
  pub vlan : ℕ
  pub tags : List ℕ
  pub description : Option Text
  pub enabled : Bool
  pub poe_enabled : Bool
  pub mac_notify : Bool
  pub speed_duplex : SpeedDuplex

-- the tagged VLANs without the native one, in their order; PoE only where the model has it
abbrev pub essence : Bool → Port → Settled
essence poe p = record {
  port_id = p.port_id;
  vlan = p.vlan;
  tags = foreign_tags p;
  description = p.description;
  enabled = p.enabled;
  poe_enabled = poe && p.poe_enabled;
  mac_notify = p.mac_notify;
  speed_duplex = p.speed_duplex;
}

-- a port with a foreign tag is a trunk
mode_of_tagged : (p : Port) → is_empty (foreign_tags p) ≡ false → inferred_mode p ≡ trunk
unfolding inferred_mode foreign_tags
mode_of_tagged p h = go p.tagged_vlans h
  where
    go :
        (l : List ℕ)
        → is_empty (filter (λ v. not (v == p.vlan)) l) ≡ false
        → (if is_empty l then access else trunk) ≡ trunk
    go [] q = ground arith
    go (v ∷ l) q = refl

equivalent_of_essence :
    (c d : Port) (poe : Bool)
    → essence poe c ≡ essence poe d
    → ports_equivalent_for_model c d poe ≡ true
unfolding ports_equivalent_for_model
equivalent_of_essence c d poe h = ground (
  arith,
  ap (λ (s : Settled). s.port_id) h,
  ap (λ (s : Settled). s.vlan) h,
  ap (λ (s : Settled). s.tags) h,
  ap (λ (s : Settled). s.description) h,
  ap (λ (s : Settled). s.enabled) h,
  ap (λ (s : Settled). s.poe_enabled) h,
  ap (λ (s : Settled). s.mac_notify) h,
  ap (λ (s : Settled). s.speed_duplex) h,
  ==_iff c.port_id d.port_id,
  ==_iff c.description d.description,
  ==_iff c.enabled d.enabled,
  ==_iff c.mac_notify d.mac_notify,
  ==_iff c.speed_duplex d.speed_duplex,
  ==_iff c.poe_enabled d.poe_enabled,
  ==_iff (foreign_tags c) (foreign_tags d),
  mode_of_tagged c,
  mode_of_tagged d,
  ==_refl trunk,
)

-- each comparison that the code makes, read off its success
module _ (c d : Port) (poe : Bool) (h : ports_equivalent_for_model c d poe ≡ true) where
  same_port_id : c.port_id ≡ d.port_id
  unfolding ports_equivalent_for_model
  same_port_id = ground (arith, ==_iff c.port_id d.port_id)

  same_vlan : c.vlan ≡ d.vlan
  unfolding ports_equivalent_for_model
  same_vlan = ground (arith)

  same_description : c.description ≡ d.description
  unfolding ports_equivalent_for_model
  same_description = ground (arith, ==_iff c.description d.description)

  same_enabled : c.enabled ≡ d.enabled
  unfolding ports_equivalent_for_model
  same_enabled = ground (arith, ==_iff c.enabled d.enabled)

  same_mac_notify : c.mac_notify ≡ d.mac_notify
  unfolding ports_equivalent_for_model
  same_mac_notify = ground (arith, ==_iff c.mac_notify d.mac_notify)

  same_speed_duplex : c.speed_duplex ≡ d.speed_duplex
  unfolding ports_equivalent_for_model
  same_speed_duplex = ground (arith, ==_iff c.speed_duplex d.speed_duplex)

  same_poe : (poe && c.poe_enabled) ≡ (poe && d.poe_enabled)
  unfolding ports_equivalent_for_model
  same_poe = ground (arith, ==_iff c.poe_enabled d.poe_enabled)

  same_tags : foreign_tags c ≡ foreign_tags d
  unfolding ports_equivalent_for_model
  same_tags = ground (arith, ==_iff (foreign_tags c) (foreign_tags d))

  essence_of_equivalent : essence poe c ≡ essence poe d
  essence_of_equivalent = λ i. record {
    port_id = same_port_id i;
    vlan = same_vlan i;
    tags = same_tags i;
    description = same_description i;
    enabled = same_enabled i;
    poe_enabled = same_poe i;
    mac_notify = same_mac_notify i;
    speed_duplex = same_speed_duplex i;
  }

-- Two ports are equivalent exactly if they agree on the id, the untagged VLAN, the other tagged VLANs in
-- their order, the description, whether they are enabled, the notification, the speed and, where the
-- model has it, PoE. The modes do not decide.
pub ports_equivalent_iff :
    (c d : Port) (poe : Bool)
    → (ports_equivalent_for_model c d poe ≡ true) ↔ (essence poe c ≡ essence poe d)
ports_equivalent_iff c d poe = (essence_of_equivalent c d poe, equivalent_of_essence c d poe)

pub ports_equivalent_refl : (p : Port) (poe : Bool) → ports_equivalent_for_model p p poe ≡ true
ports_equivalent_refl p poe = equivalent_of_essence p p poe refl
