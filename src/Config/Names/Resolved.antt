-- ===== src/Config/Names/Resolved.antt =====
-- What `resolve_vlan_names` leaves as it is, and what it replaces.
use switch_configurator.Prelude.{
  ℕ, ◌≡◌, refl, subst, ◌∙◌, Bool, true, false, ◌&&◌, ◌||◌, Option, none, some, List, [], ◌∷◌, Text,
  text_eq, nat_eq, ◌==◌, any, arith, All, is_empty, ==_iff, Bool-cases, inl, inr,
}
use switch_configurator.Prelude.HashMap.{get, insert, get-insert}
use switch_configurator.Models.Network.{Vlan, Port, VlanRef}
use switch_configurator.Models.SwitchConfig.{SwitchConfig}
use switch_configurator.Diff.Keyed.{has, distinct}
use switch_configurator.Diff.Ports.{port_key}
use switch_configurator.Config.Result.{ok, ◌>>=◌, >>=-eq_ok, ok_inj}
use switch_configurator.Config.Names.{
  NameMap, ambiguous_from, find_ambiguous_vlan_name, names_into, name_to_id, resolve_untagged,
  resolve_refs, resolve_tagged, resolve_port, resolve_ports, resolve_vlan_names,
}

-- A port whose names are resolved: it refers to VLANs by their ids only.
abbrev pub IsResolved : Port → Type 0
IsResolved p = (p.vlan_name ≡ none) × (p.tagged_vlan_refs ≡ [])

untagged_lem :
    (m : NameMap) (p : Port) {p' : Port}
    → resolve_untagged m p ≡ ok p'
    → (p'.port_id ≡ p.port_id)
      × (p'.vlan_name ≡ none)
      × (p'.vlan ≡ elim p.vlan_name [
        | none ↦ p.vlan
        | some name ↦ elim (get name m) [ none ↦ p.vlan | some id ↦ id ]
      ])
unfolding resolve_untagged
untagged_lem m p h = (ground arith, ground arith, ground arith)

tagged_lem :
    (strict : Bool) (m : NameMap) (p : Port) {p' : Port}
    → resolve_tagged strict m p ≡ ok p'
    → (p'.port_id ≡ p.port_id)
      × (p'.vlan_name ≡ p.vlan_name)
      × (p'.vlan ≡ p.vlan)
      × (p'.tagged_vlan_refs ≡ [])
unfolding resolve_tagged
tagged_lem strict m p {p'} h = elim (Bool-cases (is_empty p.tagged_vlan_refs)) [
  | inl e ↦
      (ground arith, ground arith, ground arith, ground (arith, empty_lem p.tagged_vlan_refs e))
  | inr e ↦
      let (ids, _, h') =
        >>=-eq_ok (resolve_refs strict m p.port_id [] p.tagged_vlan_refs)
          (λ resolved. ok (record p { tagged_vlans = resolved; tagged_vlan_refs = [] })) {b = p'}
          (ground arith) in
      (ground (arith, h'), ground (arith, h'), ground (arith, h'), ground (arith, h'))
]
  where
    empty_lem : (rs : List VlanRef) → is_empty rs ≡ true → rs ≡ []
    empty_lem [] h = refl
    empty_lem (r ∷ rs) h = ground arith

port_lem :
    (strict : Bool) (m : NameMap) (p : Port) {p' : Port}
    → resolve_port strict m p ≡ ok p'
    → (p'.port_id ≡ p.port_id)
      × IsResolved p'
      × (p'.vlan ≡ elim p.vlan_name [
        | none ↦ p.vlan
        | some name ↦ elim (get name m) [ none ↦ p.vlan | some id ↦ id ]
      ])
unfolding resolve_port
port_lem strict m p h =
    let (q, hq, h') = >>=-eq_ok (resolve_untagged m p) (resolve_tagged strict m) h in
    let (i, n, v) = untagged_lem m p hq in
    let (i', n', v', r) = tagged_lem strict m q h' in (i' ∙ i, (n' ∙ n, r), v' ∙ v)

-- The second list has ports under the ids of the first, distinct if those are, with every name resolved.
abbrev pub Resolves : List Port → List Port → Type 0
Resolves ps ps' =
    ((id : Text) → has port_key ps' id ≡ has port_key ps id)
    × (distinct port_key ps' ≡ distinct port_key ps)
    × All IsResolved ps'

pub resolve_ports-Resolves :
    (strict : Bool) (m : NameMap) (ps : List Port) {ps' : List Port}
    → resolve_ports strict m ps ≡ ok ps'
    → Resolves ps ps'
unfolding resolve_ports distinct any
resolve_ports-Resolves strict m [] h = subst (Resolves []) (ok_inj h) (λ id. refl, refl, tt)
resolve_ports-Resolves strict m (p ∷ ps) h =
    let rest = resolve_ports strict m ps in
    let (q, hq, h') = >>=-eq_ok (resolve_port strict m p) (λ q. rest >>= λ qs. ok (q ∷ qs)) h in
    let (qs, hqs, h'') = >>=-eq_ok rest (λ qs. ok (q ∷ qs)) h' in
    let (same_id, resolved, _) = port_lem strict m p hq in
    let (has_same, distinct_same, all_resolved) = resolve_ports-Resolves strict m ps hqs in
    subst (Resolves (p ∷ ps)) (ok_inj h'') (
      λ id. rw (same_id, has_same id) refl,
      rw (same_id, has_same p.port_id, distinct_same) refl,
      (resolved, all_resolved),
    )

-- the names of the VLANs tell at most one id each
unambiguous_lem :
    (m : NameMap) (vs : List Vlan) (s : Text) (id : ℕ)
    → ambiguous_from m vs ≡ none
    → get s m ≡ some id
    → get s (names_into m vs) ≡ some id
unfolding ambiguous_from names_into
unambiguous_lem m [] s id h g = g
unambiguous_lem m (v ∷ vs) s id h g =
    unambiguous_lem (insert v.name v.id m) vs s id (ground arith)
      (ground (arith, get-insert v.name s v.id m, ==_iff v.name s))

names_into_exact :
    (m : NameMap) (vs : List Vlan)
    → ambiguous_from m vs ≡ none
    → All (λ v. get v.name (names_into m vs) ≡ some v.id) vs
unfolding ambiguous_from names_into
names_into_exact m [] h = tt
names_into_exact m (v ∷ vs) h = (
  unambiguous_lem (insert v.name v.id m) vs v.name v.id (ground arith)
      (ground (arith, get-insert v.name v.name v.id m, ==_iff v.name v.name)),
  names_into_exact (insert v.name v.id m) vs (ground arith),
)

-- If no name is found to be ambiguous, then the table that names are looked up in has each VLAN's own id
-- under its name.
pub name_to_id_exact :
    (vlans : List Vlan)
    → find_ambiguous_vlan_name vlans ≡ none
    → All (λ v. get v.name (name_to_id vlans) ≡ some v.id) vlans
unfolding find_ambiguous_vlan_name name_to_id
name_to_id_exact vlans h = names_into_exact [] vlans h

-- some VLAN has the name and the id
abbrev pub named : Text → ℕ → List Vlan → Bool
named n a vlans = any (λ v. v.name == n && v.id == a) vlans

-- one id has the name in the table or in the list, another one has it in the list
abbrev Clash : NameMap → List Vlan → Text → ℕ → ℕ → Type 0
Clash m vs n a b =
    ((a == b) ≡ false)
    × ((elim (get n m) [ none ↦ false | some x ↦ x == a ]) || named n a vs ≡ true)
    × (named n b vs ≡ true)

Clash-insert :
    (m : NameMap) (v : Vlan) (vs : List Vlan) (n : Text) (a b : ℕ)
    → Clash (insert v.name v.id m) vs n a b
    → Clash m (v ∷ vs) n a b
unfolding any
Clash-insert m v vs n a b (apart, first, second) = (
  apart,
  ground (arith, first, get-insert v.name n v.id m, ==_iff v.name n),
  ground (arith, second),
)

Clash-head :
    (m : NameMap) (v : Vlan) (vs : List Vlan) (x : ℕ)
    → get v.name m ≡ some x
    → (x == v.id) ≡ false
    → Clash m (v ∷ vs) v.name x v.id
unfolding any
Clash-head m v vs x e c = (c, ground (arith, e), ground (arith, ==_iff v.name v.name))

some_inj : {r s : Text × ℕ × ℕ} → some r ≡ some s → r ≡ s
some_inj q = cc

ambiguous_from_sound :
    (m : NameMap) (vs : List Vlan) (n : Text) (a b : ℕ)
    → ambiguous_from m vs ≡ some (n, a, b)
    → Clash m vs n a b
unfolding ambiguous_from
ambiguous_from_sound m [] n a b h = ground arith
ambiguous_from_sound m (v ∷ vs) n a b h =
    go (get v.name m) refl
      (λ k. Clash-insert m v vs n a b (ambiguous_from_sound (insert v.name v.id m) vs n a b k))
  where
    go :
        (o : Option ℕ)
        → get v.name m ≡ o
        → (ambiguous_from (insert v.name v.id m) vs ≡ some (n, a, b) → Clash m (v ∷ vs) n a b)
        → Clash m (v ∷ vs) n a b
    go none e later = later (ground (arith, e))
    go (some x) e later = elim (Bool-cases (x == v.id)) [
      | inl c ↦ later (ground (arith, e))
      | inr c ↦
          subst (λ r. Clash m (v ∷ vs) r.0 r.1 r.2) (some_inj (ground (arith, e)))
            (Clash-head m v vs x e c)
    ]

-- If a name is reported as ambiguous, with two ids, then these differ and there is a VLAN of that
-- name for each.
pub find_ambiguous_sound :
    (vlans : List Vlan) (n : Text) (a b : ℕ)
    → find_ambiguous_vlan_name vlans ≡ some (n, a, b)
    → ((a == b) ≡ false) × (named n a vlans ≡ true) × (named n b vlans ≡ true)
unfolding find_ambiguous_vlan_name get
find_ambiguous_sound vlans n a b h = ambiguous_from_sound [] vlans n a b h

-- A resolved switch has the VLANs and mirrors that it had, and a port under each id that had one and no
-- other, without a name left to resolve; port ids that were distinct stay so, and no name is ambiguous.
pub resolve_vlan_names_lem :
    (switch : SwitchConfig) (strict : Bool) {resolved : SwitchConfig}
    → resolve_vlan_names switch strict ≡ ok resolved
    → Resolves switch.ports resolved.ports
      × (resolved.vlans ≡ switch.vlans)
      × (resolved.port_mirrors ≡ switch.port_mirrors)
      × (find_ambiguous_vlan_name switch.vlans ≡ none)
unfolding resolve_vlan_names
resolve_vlan_names_lem switch strict {resolved} h = go (find_ambiguous_vlan_name switch.vlans) refl
  where
    go :
        (o : Option (Text × ℕ × ℕ))
        → find_ambiguous_vlan_name switch.vlans ≡ o
        → Resolves switch.ports resolved.ports
          × (resolved.vlans ≡ switch.vlans)
          × (resolved.port_mirrors ≡ switch.port_mirrors)
          × (find_ambiguous_vlan_name switch.vlans ≡ none)
    go (some (n, a, b)) e = ground (arith, e)
    go none e =
        let (ps, hps, h') =
          >>=-eq_ok (resolve_ports strict (name_to_id switch.vlans) switch.ports)
            (λ ps. ok (record switch { ports = ps })) {b = resolved} (ground (arith, e)) in
        (
          subst (λ (s : SwitchConfig). Resolves switch.ports s.ports) (ok_inj h')
              (resolve_ports-Resolves strict (name_to_id switch.vlans) switch.ports hps),
          ground (arith, h'),
          ground (arith, h'),
          e,
        )
