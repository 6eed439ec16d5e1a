-- ===== src/Config/References/Checked.antt =====
-- What a switch is like that `validate_vlan_references_inner` lets pass.
use switch_configurator.Prelude.{
  ◌&&◌, ==_iff, contains-filter, Pairwise, ℕ, ◌≡◌, refl, ap, ◌∙◌, sym, subst, Bool, true, false,
  not, Option, none, some, List, [], ◌∷◌, Text, text_eq, nat_eq, contains, filter, map, any, arith,
  All, Bool-cases, inl, inr,
}
use switch_configurator.Models.Hardware.{SwitchModel, supports_speed}
use switch_configurator.Models.Network.{Port, PortMirror}
use switch_configurator.Models.SwitchConfig.{SwitchConfig}
use switch_configurator.Diff.Keyed.{has, distinct}
use switch_configurator.Diff.Ports.{port_key}
use switch_configurator.Diff.Converges.{mirrors_apart}
use switch_configurator.Config.Result.{ok}
use switch_configurator.Config.References.{
  RangePattern, defined_vlans, port_has_errors, filter_tags, mirrors_have_errors,
  validate_vlan_references_inner,
}

-- a port that refers to defined VLANs only and has a speed that the model supports
abbrev pub IsChecked : SwitchModel → List ℕ → Port → Type 0
IsChecked model defined p =
    (contains defined p.vlan ≡ true)
    × All (λ t. contains defined t ≡ true) p.tagged_vlans
    × (supports_speed model p.speed_duplex ≡ true)

All-filter : (p : ℕ → Bool) (xs : List ℕ) → All (λ x. p x ≡ true) (filter p xs)
unfolding filter
All-filter p [] = tt
All-filter p (x ∷ xs) = elim (Bool-cases (p x)) [
  | inl h ↦ rw h (h, All-filter p xs)
  | inr h ↦ rw h (All-filter p xs)
]

All-not-any :
    (p : ℕ → Bool) (xs : List ℕ) → any (λ x. not (p x)) xs ≡ false → All (λ x. p x ≡ true) xs
unfolding any
All-not-any p [] h = tt
All-not-any p (x ∷ xs) h = (ground arith, All-not-any p xs (ground arith))

filter_tags-IsChecked :
    (strict : Bool) (model : SwitchModel) (defined : List ℕ) (p : Port)
    → port_has_errors strict model defined p ≡ false
    → IsChecked model defined (filter_tags strict defined p)
unfolding port_has_errors filter_tags
filter_tags-IsChecked true model defined p h =
    (ground arith, All-not-any (contains defined) p.tagged_vlans (ground arith), ground arith)
filter_tags-IsChecked false model defined p h =
    (ground arith, All-filter (contains defined) p.tagged_vlans, ground arith)

All-IsChecked :
    (strict : Bool) (model : SwitchModel) (defined : List ℕ) (ps : List Port)
    → any (port_has_errors strict model defined) ps ≡ false
    → All (IsChecked model defined) (map (filter_tags strict defined) ps)
unfolding any
All-IsChecked strict model defined [] h = tt
All-IsChecked strict model defined (p ∷ ps) h = (
  filter_tags-IsChecked strict model defined p (ground arith),
  All-IsChecked strict model defined ps (ground arith),
)

filter_tags-port_id :
    (strict : Bool) (defined : List ℕ) (p : Port)
    → (filter_tags strict defined p).port_id ≡ p.port_id
unfolding filter_tags
filter_tags-port_id true defined p = refl
filter_tags-port_id false defined p = refl

module _ (strict : Bool) (defined : List ℕ) where
  abbrev filtered : List Port → List Port
  filtered ps = map (filter_tags strict defined) ps

  has-filtered : (ps : List Port) (id : Text) → has port_key (filtered ps) id ≡ has port_key ps id
  unfolding any
  has-filtered [] id = refl
  has-filtered (p ∷ ps) id = rw (filter_tags-port_id strict defined p, has-filtered ps id) refl

  distinct-filtered : (ps : List Port) → distinct port_key (filtered ps) ≡ distinct port_key ps
  unfolding distinct
  distinct-filtered [] = refl
  distinct-filtered (p ∷ ps) =
      rw (filter_tags-port_id strict defined p, has-filtered ps p.port_id, distinct-filtered ps)
        refl

pub contains-port_ids :
    (ps : List Port) (id : Text) → contains (map (λ p. p.port_id) ps) id ≡ has port_key ps id
unfolding contains any
contains-port_ids [] id = refl
contains-port_ids (p ∷ ps) id = ground (arith, contains-port_ids ps id)

mirrors_lem :
    (ports : List Port) (ms : List PortMirror)
    → mirrors_have_errors ports ms ≡ any (λ m. has port_key ports m.destination_port) ms
unfolding mirrors_have_errors any
mirrors_lem ports [] = refl
mirrors_lem ports (m ∷ ms) =
    rw (contains-port_ids ports m.destination_port, mirrors_lem ports ms) refl

-- The second port is the first one with those of its tagged VLANs that are defined.
abbrev pub IsKept : List ℕ → Port → Port → Type 0
IsKept defined p p' =
    (p' ≡ record p { tagged_vlans = p'.tagged_vlans })
    × ((v : ℕ) → contains p'.tagged_vlans v ≡ (contains defined v && contains p.tagged_vlans v))

tags_defined :
    (defined tags : List ℕ) (v : ℕ)
    → any (λ t. not (contains defined t)) tags ≡ false
    → contains tags v ≡ (contains defined v && contains tags v)
unfolding any contains
tags_defined defined [] v h = ground arith
tags_defined defined (t ∷ tags) v h =
    ground (arith, tags_defined defined tags v (ground arith), ==_iff t v)

filter_tags-IsKept :
    (strict : Bool) (model : SwitchModel) (defined : List ℕ) (p : Port)
    → port_has_errors strict model defined p ≡ false
    → IsKept defined p (filter_tags strict defined p)
unfolding port_has_errors filter_tags
filter_tags-IsKept true model defined p h =
    (refl, λ v. tags_defined defined p.tagged_vlans v (ground arith))
filter_tags-IsKept false model defined p h =
    (refl, λ v. contains-filter (contains defined) v p.tagged_vlans)

Pairwise-IsKept :
    (strict : Bool) (model : SwitchModel) (defined : List ℕ) (ps : List Port)
    → any (port_has_errors strict model defined) ps ≡ false
    → Pairwise (IsKept defined) ps (map (filter_tags strict defined) ps)
unfolding any
Pairwise-IsKept strict model defined [] h = tt
Pairwise-IsKept strict model defined (p ∷ ps) h = (
  filter_tags-IsKept strict model defined p (ground arith),
  Pairwise-IsKept strict model defined ps (ground arith),
)

-- the switch that passed, beside the one that was checked
pub record Checked (switch checked : SwitchConfig) : Type 0 where
  pub model : SwitchModel
  pub model_given : switch.model ≡ some model
  pub same_vlans : checked.vlans ≡ switch.vlans
  pub ports_checked : All (IsChecked model (defined_vlans model switch.vlans)) checked.ports
  pub ports_kept : Pairwise (IsKept (defined_vlans model switch.vlans)) switch.ports checked.ports
  pub same_distinct : distinct port_key checked.ports ≡ distinct port_key switch.ports
  pub apart : mirrors_apart checked ≡ true

-- what stands behind the checks of the names
Checked-of_none :
    (strict : Bool) (switch : SwitchConfig) (m : SwitchModel)
    → switch.model ≡ some m
    → any (port_has_errors strict m (defined_vlans m switch.vlans)) switch.ports ≡ false
    → mirrors_have_errors
        (filtered strict (defined_vlans m switch.vlans) switch.ports)
        switch.port_mirrors
      ≡ false
    → Checked switch
        (record switch { ports = filtered strict (defined_vlans m switch.vlans) switch.ports })
Checked-of_none strict switch m h p q =
    let defined = defined_vlans m switch.vlans in
    record {
      model = m;
      model_given = h;
      same_vlans = refl;
      ports_checked = All-IsChecked strict m defined switch.ports p;
      ports_kept = Pairwise-IsKept strict m defined switch.ports p;
      same_distinct = distinct-filtered strict defined switch.ports;
      apart =
          ap not (sym (mirrors_lem (filtered strict defined switch.ports) switch.port_mirrors) ∙ q);
    }

module _ (pattern_of : RangePattern) (switch : SwitchConfig) (strict : Bool)
    {checked : SwitchConfig} where
  -- A switch that passes the check of its references, strict or lenient, has a model and keeps its
  -- VLANs, and its ports in their number and order. Of each port everything is kept, except that its
  -- tagged VLANs are exactly those that it gave and that are defined or implicit; its untagged VLAN is
  -- defined or implicit, too, and its speed is one that the model supports. No mirror's destination is
  -- one of the ports.
  pub validate_references-Checked :
      validate_vlan_references_inner pattern_of switch strict ≡ ok checked → Checked switch checked
  unfolding validate_vlan_references_inner
  validate_references-Checked h = go switch.hostname switch.model refl refl
    where
      go :
          (host : Option Text) (m : Option SwitchModel)
          → switch.hostname ≡ host
          → switch.model ≡ m
          → Checked switch checked
      go none m eh em = ground (arith, eh)
      go (some host) none eh em = ground (arith, eh, em)
      go (some host) (some m) eh em =
          let defined = defined_vlans m switch.vlans in
          let ports' = filtered strict defined switch.ports in
          subst (Checked switch) {x = record switch { ports = ports' }} (ground (arith, eh, em, h))
            (Checked-of_none strict switch m em (ground (arith, eh, em, h))
              (ground (arith, eh, em, h)))
