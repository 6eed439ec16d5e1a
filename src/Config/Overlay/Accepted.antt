-- ===== src/Config/Overlay/Accepted.antt =====
-- What an overlay that `validate_overlay_config` accepts is like.
use switch_configurator.Prelude.{
  ℕ, ◌≡◌, refl, subst, ◌≤◌, ap, ◌∙◌, sym, true, false, not, List, [], ◌∷◌, Text, text_eq, nat_eq,
  contains, map, any, Bool-cases, inl, inr, arith, All, ==_iff,
}
use switch_configurator.Models.Network.{Vlan, Port, PortMirror}
use switch_configurator.Models.SwitchConfig.{SwitchConfig}
use switch_configurator.Diff.Keyed.{has, distinct}
use switch_configurator.Diff.Vlans.{vlan_key}
use switch_configurator.Diff.Ports.{port_key}
use switch_configurator.Diff.Converges.{mirrors_apart}
use switch_configurator.Config.Result.{ok, ◌>>=◌, >>=-eq_ok, ok_inj}
use switch_configurator.Config.PortRange.{expand_port_ranges}
use switch_configurator.Config.Names.{resolve_vlan_names}
use switch_configurator.Config.Names.Resolved.{IsResolved, resolve_vlan_names_lem}
use switch_configurator.Config.Snmp.{check_snmp_secret_sources, check_vendor_support}
use switch_configurator.Config.Overlay.{
  check_vlan_ids, check_port_ids, check_tags, check_port_vlans, check_destinations,
  check_references, check_expanded, valid_vlans, validate_overlay_config,
}

abbrev pub InRange : Vlan → Type 0
InRange v = (1 ≤ v.id) × (v.id ≤ 4094)

vlan_ids_sound :
    (seen : List ℕ) (vs : List Vlan) {u : Unit {0}}
    → check_vlan_ids seen vs ≡ ok u
    → (All InRange vs)
      × (distinct vlan_key vs ≡ true)
      × ((id : ℕ) → contains seen id ≡ true → has vlan_key vs id ≡ false)
unfolding check_vlan_ids distinct any contains
vlan_ids_sound seen [] h = (tt, refl, λ id c. refl)
vlan_ids_sound seen (v ∷ vs) {u} h =
    let (ranges, apart, fresh) = vlan_ids_sound (v.id ∷ seen) vs {u = u} (ground arith) in
    (
      ((ground arith, ground arith), ranges),
      ground (arith, fresh v.id),
      λ id c. ground (arith, fresh id),
    )

port_ids_sound :
    (seen : List Text) (ps : List Port) {u : Unit {0}}
    → check_port_ids seen ps ≡ ok u
    → (distinct port_key ps ≡ true)
      × ((id : Text) → contains seen id ≡ true → has port_key ps id ≡ false)
unfolding check_port_ids distinct any contains
port_ids_sound seen [] h = (refl, λ id c. refl)
port_ids_sound seen (p ∷ ps) {u} h =
    let (apart, fresh) = port_ids_sound (p.port_id ∷ seen) ps {u = u} (ground arith) in
    (
      ground (arith, fresh p.port_id, ==_iff p.port_id p.port_id),
      λ id c. ground (arith, fresh id, ==_iff p.port_id id),
    )

-- Only VLANs that are valid stand on the port.
abbrev pub IsConnected : List ℕ → Port → Type 0
IsConnected valid p =
    (contains valid p.vlan ≡ true) × All (λ t. contains valid t ≡ true) p.tagged_vlans

tags_sound :
    (valid : List ℕ) (id : Text) (ts : List ℕ) {u : Unit {0}}
    → check_tags valid id ts ≡ ok u
    → All (λ t. contains valid t ≡ true) ts
unfolding check_tags
tags_sound valid id [] h = tt
tags_sound valid id (t ∷ ts) h = (ground arith, tags_sound valid id ts (ground arith))

port_vlans_sound :
    (valid : List ℕ) (ps : List Port) {u : Unit {0}}
    → check_port_vlans valid ps ≡ ok u
    → All (IsConnected valid) ps
unfolding check_port_vlans
port_vlans_sound valid [] h = tt
port_vlans_sound valid (p ∷ ps) {u} h = elim (Bool-cases (contains valid p.vlan)) [
  | inl c ↦
      let (t, ht, h') =
        >>=-eq_ok (check_tags valid p.port_id p.tagged_vlans) (λ _. check_port_vlans valid ps)
          {b = u} (ground arith) in
      ((c, tags_sound valid p.port_id p.tagged_vlans ht), port_vlans_sound valid ps h')
  | inr c ↦ ground arith
]

contains-port_ids :
    (ps : List Port) (id : Text) → contains (map (λ p. p.port_id) ps) id ≡ has port_key ps id
unfolding contains any
contains-port_ids [] id = refl
contains-port_ids (p ∷ ps) id = ground (arith, contains-port_ids ps id)

destinations_sound :
    (ports : List Port) (ms : List PortMirror) {u : Unit {0}}
    → check_destinations (map (λ p. p.port_id) ports) ms ≡ ok u
    → any (λ m. has port_key ports m.destination_port) ms ≡ false
unfolding check_destinations any
destinations_sound ports [] h = refl
destinations_sound ports (m ∷ ms) {u} h =
    ground (arith, destinations_sound ports ms {u = u}, contains-port_ids ports m.destination_port)

-- the switch has no two VLANs or ports of one id, only legal VLAN ids, only ports on VLANs that are
-- defined or known, and no mirror to one of its ports
pub record Accepted (switch : SwitchConfig) (external : List ℕ) : Type 0 where
  pub vlan_range : All InRange switch.vlans
  pub vlans_distinct : distinct vlan_key switch.vlans ≡ true
  pub ports_distinct : distinct port_key switch.ports ≡ true
  pub ports_connected : All (IsConnected (valid_vlans switch external)) switch.ports
  pub ports_resolved : All IsResolved switch.ports
  pub apart : mirrors_apart switch ≡ true

-- what the code knows after each of its steps
module _ (expanded resolved : SwitchConfig) (external : List ℕ) where
  Accepted-of_steps :
      {u v w : Unit {0}}
      → check_vlan_ids [] expanded.vlans ≡ ok u
      → check_port_ids [] expanded.ports ≡ ok v
      → resolve_vlan_names expanded true ≡ ok resolved
      → check_references external resolved ≡ ok w
      → Accepted resolved external
  unfolding check_references
  Accepted-of_steps {u} {v} {w} hv hp hr hc =
      let (range, vlans_apart, _) = vlan_ids_sound [] expanded.vlans hv in
      let (ports_apart, _) = port_ids_sound [] expanded.ports hp in
      let ((same, same_distinct, all_resolved), same_vlans, _, _) =
        resolve_vlan_names_lem expanded true hr in
      let (x, hx, hd) =
        >>=-eq_ok (check_port_vlans (valid_vlans resolved external) resolved.ports)
          (λ _. check_destinations (map (λ p. p.port_id) resolved.ports) resolved.port_mirrors)
          hc in
      record {
        vlan_range = subst (All InRange) (sym same_vlans) range;
        vlans_distinct = ap (distinct vlan_key) same_vlans ∙ vlans_apart;
        ports_distinct = same_distinct ∙ ports_apart;
        ports_connected = port_vlans_sound (valid_vlans resolved external) resolved.ports hx;
        ports_resolved = all_resolved;
        apart = ap not (destinations_sound resolved.ports resolved.port_mirrors hd);
      }

check_expanded-Accepted :
    (external : List ℕ) (expanded : SwitchConfig) {accepted : SwitchConfig}
    → check_expanded external expanded ≡ ok accepted
    → Accepted accepted external
unfolding check_expanded
check_expanded-Accepted external expanded h =
    let last = λ (r : SwitchConfig). check_references external r >>= λ _. ok r in
    let (_, hv, h₁) =
      >>=-eq_ok (check_vlan_ids [] expanded.vlans)
        (λ _. check_port_ids [] expanded.ports >>= λ _. resolve_vlan_names expanded true >>= last)
        h in
    let (_, hp, h₂) =
      >>=-eq_ok (check_port_ids [] expanded.ports) (λ _. resolve_vlan_names expanded true >>= last)
        h₁ in
    let (resolved, hr, h₃) = >>=-eq_ok (resolve_vlan_names expanded true) last h₂ in
    let (_, hc, h₄) = >>=-eq_ok (check_references external resolved) (λ _. ok resolved) h₃ in
    subst (λ r. Accepted r external) (ok_inj h₄)
      (Accepted-of_steps expanded resolved external hv hp hr hc)

module _ (switch : SwitchConfig) (external : List ℕ) {accepted : SwitchConfig} where
  -- A switch that `validate_overlay_config` lets pass has VLAN ids from 1 to 4094, no two VLANs or ports
  -- of one id, no VLAN name left to resolve, only ports whose VLANs, untagged and tagged, are defined,
  -- known from outside or implicit, and no mirror whose destination is one of its ports.
  pub validate_overlay_config-Accepted :
      validate_overlay_config switch external ≡ ok accepted → Accepted accepted external
  unfolding validate_overlay_config
  validate_overlay_config-Accepted h =
      let expand = expand_port_ranges switch >>= check_expanded external in
      let (_, _, h₁) =
        >>=-eq_ok (check_snmp_secret_sources switch)
          (λ _. check_vendor_support switch >>= λ _. expand) h in
      let (_, _, h₂) = >>=-eq_ok (check_vendor_support switch) (λ _. expand) h₁ in
      let (expanded, _, h₃) = >>=-eq_ok (expand_port_ranges switch) (check_expanded external) h₂ in
      check_expanded-Accepted external expanded h₃
