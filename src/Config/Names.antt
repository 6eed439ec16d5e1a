-- ===== src/Config/Names.antt =====
-- config.rs: `find_ambiguous_vlan_name` and `resolve_vlan_names`.
pub mod Resolved
pub mod Meant
use switch_configurator.Prelude.{
  ℕ, Bool, true, false, not, Option, none, some, List, [], ◌∷◌, ◌++◌, Text, ◌==◌, ◌!=◌, nat_eq,
  text_eq, contains, is_empty, if◌then◌else◌,
}
use switch_configurator.Prelude.HashMap.{HashMap, get, insert}
use switch_configurator.Models.Network.{Vlan, Port, VlanRef}
use switch_configurator.Models.SwitchConfig.{SwitchConfig}
use switch_configurator.Config.Result.{
  Result, ok, err, ◌>>=◌, ambiguous_vlan_name, unknown_untagged_name, unknown_tagged_name,
}

abbrev pub NameMap : Type 0
NameMap = HashMap Text ℕ

-- the loop; the first argument is `name_to_id`
unfoldable pub ambiguous_from : NameMap → List Vlan → Option (Text × ℕ × ℕ)
ambiguous_from m [] = none
ambiguous_from m (v ∷ vs) =
    let rest = ambiguous_from (insert v.name v.id m) vs in
    elim (get v.name m) [
      | none ↦ rest
      | some existing_id ↦ if existing_id != v.id then some (v.name, existing_id, v.id) else rest
    ]

unfoldable pub find_ambiguous_vlan_name : List Vlan → Option (Text × ℕ × ℕ)
unfolding ambiguous_from
find_ambiguous_vlan_name vlans = ambiguous_from [] vlans

-- `vlans.iter().map(|v| (name, id)).collect()`
unfoldable pub names_into : NameMap → List Vlan → NameMap
names_into m [] = m
names_into m (v ∷ vs) = names_into (insert v.name v.id m) vs

unfoldable pub name_to_id : List Vlan → NameMap
unfolding names_into
name_to_id vlans = names_into [] vlans

unfoldable pub resolve_untagged : NameMap → Port → Result Port
resolve_untagged m port = elim port.vlan_name [
  | none ↦ ok port
  | some name ↦ elim (get name m) [
    | none ↦ err (unknown_untagged_name port.port_id name)
    | some id ↦ ok (record port { vlan = id; vlan_name = none })
  ]
]

-- the id that a reference stands for; none where it is dropped
unfoldable pub resolve_ref : Bool → NameMap → Text → VlanRef → Result (Option ℕ)
resolve_ref strict m port_id (VlanRef.id n) = ok (some n)
resolve_ref strict m port_id (VlanRef.name s) = elim (get s m) [
  | some id ↦ ok (some id)
  | none ↦ if strict then err (unknown_tagged_name port_id s) else ok none
]

abbrev pub push_new : List ℕ → Option ℕ → List ℕ
push_new resolved none = resolved
push_new resolved (some id) = if contains resolved id then resolved else resolved ++ id ∷ []

unfoldable pub resolve_refs : Bool → NameMap → Text → List ℕ → List VlanRef → Result (List ℕ)
resolve_refs strict m port_id resolved [] = ok resolved
resolve_refs strict m port_id resolved (r ∷ rs) = do
  id ← resolve_ref strict m port_id r
  resolve_refs strict m port_id (push_new resolved id) rs

unfoldable pub resolve_tagged : Bool → NameMap → Port → Result Port
resolve_tagged strict m port = if is_empty port.tagged_vlan_refs then ok port else do
  resolved ← resolve_refs strict m port.port_id [] port.tagged_vlan_refs
  ok (record port { tagged_vlans = resolved; tagged_vlan_refs = [] })

unfoldable pub resolve_port : Bool → NameMap → Port → Result Port
resolve_port strict m port = do port' ← resolve_untagged m port; resolve_tagged strict m port'

unfoldable pub resolve_ports : Bool → NameMap → List Port → Result (List Port)
resolve_ports strict m [] = ok []
resolve_ports strict m (p ∷ ps) = do
  p' ← resolve_port strict m p
  ps' ← resolve_ports strict m ps
  ok (p' ∷ ps')

unfoldable pub resolve_vlan_names : SwitchConfig → Bool → Result SwitchConfig
resolve_vlan_names switch strict = elim (find_ambiguous_vlan_name switch.vlans) [
  | some (name, existing_id, id) ↦ err (ambiguous_vlan_name name existing_id id)
  | none ↦ do
    ports' ← resolve_ports strict (name_to_id switch.vlans) switch.ports
    ok (record switch { ports = ports' })
]
