-- ===== src/Config/Names/Meant.antt =====
-- The VLANs that the names of a port's configuration are resolved to.
use switch_configurator.Prelude.{
  ℕ, ◌≡◌, refl, sym, subst, ap, ◌∙◌, Bool, true, false, ◌&&◌, ◌||◌, Option, none, some, List, [],
  ◌∷◌, Text, text_eq, nat_eq, ◌==◌, any, arith, All, ==_iff, Bool-cases, inl, inr, contains,
  contains-append, Pairwise,
}
use switch_configurator.Prelude.HashMap.{get, insert, get-insert}
use switch_configurator.Models.Network.{Vlan, Port, VlanRef}
use switch_configurator.Models.SwitchConfig.{SwitchConfig}
use switch_configurator.Config.Result.{ok, ◌>>=◌, >>=-eq_ok, ok_inj}
use switch_configurator.Config.Names.{
  NameMap, find_ambiguous_vlan_name, names_into, name_to_id, resolve_untagged, resolve_ref,
  push_new, resolve_refs, resolve_tagged, resolve_port, resolve_ports, resolve_vlan_names,
}
use switch_configurator.Config.Names.Resolved.{named, name_to_id_exact, resolve_vlan_names_lem}

abbrev maps_to : Option ℕ → ℕ → Bool
maps_to none v = false
maps_to (some n) v = n == v

names_into_found :
    (m : NameMap) (vs : List Vlan) (s : Text) (v : ℕ)
    → maps_to (get s (names_into m vs)) v ≡ true
    → maps_to (get s m) v || named s v vs ≡ true
unfolding names_into any
names_into_found m [] s v h = ground (arith, h)
names_into_found m (w ∷ vs) s v h = ground (
  arith,
  names_into_found (insert w.name w.id m) vs s v h,
  get-insert w.name s w.id m,
  ==_iff w.name s,
)

named_found :
    (m : NameMap) (vs : List Vlan) (s : Text) (v : ℕ)
    → All (λ w. get w.name m ≡ some w.id) vs
    → named s v vs ≡ true
    → maps_to (get s m) v ≡ true
unfolding any
named_found m [] s v h k = ground arith
named_found m (w ∷ vs) s v (hw, h) k = elim (Bool-cases (w.name == s && w.id == v)) [
  | inl here ↦
      subst (λ t. maps_to (get t m) v ≡ true) ((==_iff w.name s).0 (ground arith))
        (rw hw (ground arith))
  | inr later ↦ named_found m vs s v h (ground arith)
]

both_or_none : (a b : Bool) → (a ≡ true → b ≡ true) → (b ≡ true → a ≡ true) → a ≡ b
both_or_none true true f g = refl
both_or_none false false f g = refl
both_or_none true false f g = sym (f refl)
both_or_none false true f g = g refl

-- a VLAN has a name exactly if the name is looked up as its id
named_lem :
    (vlans : List Vlan) (s : Text) (v : ℕ)
    → find_ambiguous_vlan_name vlans ≡ none
    → named s v vlans ≡ maps_to (get s (name_to_id vlans)) v
unfolding name_to_id get
named_lem vlans s v h =
    both_or_none _ _ (λ k. named_found (name_to_id vlans) vlans s v (name_to_id_exact vlans h) k)
      (λ k. names_into_found [] vlans s v k)

-- Does a reference stand for the VLAN of that id?
abbrev pub stands_for : List Vlan → ℕ → VlanRef → Bool
stands_for vlans v (VlanRef.id n) = n == v
stands_for vlans v (VlanRef.name s) = named s v vlans

contains-push_new :
    (ids : List ℕ) (o : Option ℕ) (v : ℕ)
    → contains (push_new ids o) v ≡ (contains ids v || maps_to o v)
unfolding contains
contains-push_new ids none v = ground arith
contains-push_new ids (some n) v =
    ground (arith, contains-append ids (n ∷ []) v, ==_iff n v, ==_iff v n)

module _ (vlans : List Vlan) (m : NameMap)
    (looked_up : (s : Text) (v : ℕ) → named s v vlans ≡ maps_to (get s m) v) (strict : Bool) where
  resolve_ref_meant :
      (port_id : Text) (r : VlanRef) {o : Option ℕ} (v : ℕ)
      → resolve_ref strict m port_id r ≡ ok o
      → maps_to o v ≡ stands_for vlans v r
  unfolding resolve_ref
  resolve_ref_meant port_id (VlanRef.id n) v h = ground (arith, h)
  resolve_ref_meant port_id (VlanRef.name s) v h = ground (arith, h, looked_up s v)

  resolve_refs_meant :
      (port_id : Text) (ids : List ℕ) (rs : List VlanRef) {resolved : List ℕ} (v : ℕ)
      → resolve_refs strict m port_id ids rs ≡ ok resolved
      → contains resolved v ≡ (contains ids v || any (stands_for vlans v) rs)
  unfolding resolve_refs any
  resolve_refs_meant port_id ids [] v h = ground (arith, ok_inj h)
  resolve_refs_meant port_id ids (r ∷ rs) v h =
      let (o, ho, h') =
        >>=-eq_ok (resolve_ref strict m port_id r)
          (λ o. resolve_refs strict m port_id (push_new ids o) rs) h in
      ground (
        arith,
        resolve_refs_meant port_id (push_new ids o) rs v h',
        contains-push_new ids o v,
        resolve_ref_meant port_id r v ho,
      )

-- The VLAN that is given by its id, or by its name.
abbrev pub UntaggedMeant : List Vlan → Option Text → ℕ → ℕ → Type 0
UntaggedMeant vlans none old new = new ≡ old
UntaggedMeant vlans (some name) old new = named name new vlans ≡ true

-- The tagged VLANs are those that the references stand for, and the given ones where there are none.
abbrev pub TaggedMeant : List Vlan → List VlanRef → List ℕ → List ℕ → Type 0
TaggedMeant vlans [] old new = new ≡ old
TaggedMeant vlans (r ∷ rs) old new = (v : ℕ) → contains new v ≡ any (stands_for vlans v) (r ∷ rs)

-- The second port is the first one, with no name left, on the VLANs that its names meant; nothing else
-- of it has changed.
abbrev pub IsMeant : List Vlan → Port → Port → Type 0
IsMeant vlans p p' =
    UntaggedMeant vlans p.vlan_name p.vlan p'.vlan
    × TaggedMeant vlans p.tagged_vlan_refs p.tagged_vlans p'.tagged_vlans
    × (p' ≡ record p {
      vlan = p'.vlan;
      tagged_vlans = p'.tagged_vlans;
      vlan_name = none;
      tagged_vlan_refs = [];
    })

module _ (vlans : List Vlan) (m : NameMap)
    (looked_up : (s : Text) (v : ℕ) → named s v vlans ≡ maps_to (get s m) v) (strict : Bool) where
  untagged_meant :
      (p : Port) {p' : Port}
      → resolve_untagged m p ≡ ok p'
      → UntaggedMeant vlans p.vlan_name p.vlan p'.vlan
        × (p' ≡ record p { vlan = p'.vlan; vlan_name = none })
  unfolding resolve_untagged
  untagged_meant p {p'} h = go p.vlan_name refl
    where
      go :
          (o : Option Text)
          → p.vlan_name ≡ o
          → UntaggedMeant vlans o p.vlan p'.vlan
            × (p' ≡ record p { vlan = p'.vlan; vlan_name = none })
      go none e =
          subst
            (λ (q : Port). (q.vlan ≡ p.vlan) × (q ≡ record p { vlan = q.vlan; vlan_name = none }))
            (ok_inj (rw e at h)) (refl, refl)
      go (some name) e = found (get name m) refl
        where
          found :
              (o : Option ℕ)
              → get name m ≡ o
              → (named name p'.vlan vlans ≡ true)
                × (p' ≡ record p { vlan = p'.vlan; vlan_name = none })
          found none k = ground (arith, e, k, h)
          found (some id) k =
              subst
                (λ (q : Port).
                  (named name q.vlan vlans ≡ true)
                  × (q ≡ record p { vlan = q.vlan; vlan_name = none }))
                (ok_inj (rw (e, resolve_untagged, k) at h))
                (ground (arith, looked_up name id, k, ==_iff id id), refl)

  tagged_meant :
      (p : Port) {p' : Port}
      → resolve_tagged strict m p ≡ ok p'
      → TaggedMeant vlans p.tagged_vlan_refs p.tagged_vlans p'.tagged_vlans
        × (p' ≡ record p { tagged_vlans = p'.tagged_vlans; tagged_vlan_refs = [] })
  unfolding resolve_tagged any contains
  tagged_meant p {p'} h = go p.tagged_vlan_refs refl
    where
      go :
          (rs : List VlanRef)
          → p.tagged_vlan_refs ≡ rs
          → TaggedMeant vlans rs p.tagged_vlans p'.tagged_vlans
            × (p' ≡ record p { tagged_vlans = p'.tagged_vlans; tagged_vlan_refs = [] })
      go [] e =
          subst
            (λ (q : Port).
              (q.tagged_vlans ≡ p.tagged_vlans)
              × (q ≡ record p { tagged_vlans = q.tagged_vlans; tagged_vlan_refs = [] }))
            (ok_inj (rw e at h)) (refl, refl)
      go (r ∷ rs) e =
          let (ids, hids, h') =
            >>=-eq_ok (resolve_refs strict m p.port_id [] p.tagged_vlan_refs)
              (λ resolved. ok (record p { tagged_vlans = resolved; tagged_vlan_refs = [] }))
              {b = p'} (ground (arith, e, h)) in
          subst
            (λ (q : Port).
              ((v : ℕ) → contains q.tagged_vlans v ≡ any (stands_for vlans v) (r ∷ rs))
              × (q ≡ record p { tagged_vlans = q.tagged_vlans; tagged_vlan_refs = [] }))
            (ok_inj h')
            (
              λ v.
                  resolve_refs_meant vlans m looked_up strict p.port_id [] (r ∷ rs) v
                    (rw e at hids),
              refl,
            )

  port-IsMeant : (p : Port) {p' : Port} → resolve_port strict m p ≡ ok p' → IsMeant vlans p p'
  unfolding resolve_port
  port-IsMeant p {p'} h =
      let (q, hq, h') = >>=-eq_ok (resolve_untagged m p) (resolve_tagged strict m) h in
      let (untagged, same) = untagged_meant p hq in
      let (tagged, same') = tagged_meant q h' in
      let same_vlan : p'.vlan ≡ q.vlan = ap (λ (x : Port). x.vlan) same' in
      (
        subst (UntaggedMeant vlans p.vlan_name p.vlan) (sym same_vlan) untagged,
        subst (λ (x : Port). TaggedMeant vlans x.tagged_vlan_refs x.tagged_vlans p'.tagged_vlans)
            same tagged,
        same'
            ∙ ap (λ (x : Port). record x { tagged_vlans = p'.tagged_vlans; tagged_vlan_refs = [] })
                same
            ∙ ap
                (λ v. record p {
                  vlan = v;
                  tagged_vlans = p'.tagged_vlans;
                  vlan_name = none;
                  tagged_vlan_refs = [];
                })
                (sym same_vlan),
      )

  ports-IsMeant :
      (ps : List Port) {ps' : List Port}
      → resolve_ports strict m ps ≡ ok ps'
      → Pairwise (IsMeant vlans) ps ps'
  unfolding resolve_ports
  ports-IsMeant [] h = subst (Pairwise (IsMeant vlans) []) (ok_inj h) tt
  ports-IsMeant (p ∷ ps) h =
      let rest = resolve_ports strict m ps in
      let (q, hq, h') = >>=-eq_ok (resolve_port strict m p) (λ q. rest >>= λ qs. ok (q ∷ qs)) h in
      let (qs, hqs, h'') = >>=-eq_ok rest (λ qs. ok (q ∷ qs)) h' in
      subst (Pairwise (IsMeant vlans) (p ∷ ps)) (ok_inj h'')
        (port-IsMeant p hq, ports-IsMeant ps hqs)

-- Resolving the names of a switch succeeds only if no name is ambiguous, and keeps its VLANs and mirrors
-- and its ports in their number and order. Each port has no name left. Its untagged VLAN is the one that it
-- gave by id, or one of that name; its tagged VLANs are exactly those that its references stand for, by id
-- or by name, where it has references, and the given ones otherwise; nothing else of it has changed.
pub resolve_vlan_names-IsMeant :
    (switch : SwitchConfig) (strict : Bool) {resolved : SwitchConfig}
    → resolve_vlan_names switch strict ≡ ok resolved
    → Pairwise (IsMeant switch.vlans) switch.ports resolved.ports
      × (resolved.vlans ≡ switch.vlans)
      × (resolved.port_mirrors ≡ switch.port_mirrors)
      × (find_ambiguous_vlan_name switch.vlans ≡ none)
unfolding resolve_vlan_names
resolve_vlan_names-IsMeant switch strict {resolved} h =
    let (_, vlans, mirrors, clear) = resolve_vlan_names_lem switch strict h in
    let (ps, hps, h') =
      >>=-eq_ok (resolve_ports strict (name_to_id switch.vlans) switch.ports)
        (λ ps. ok (record switch { ports = ps })) {b = resolved}
        (rw (resolve_vlan_names, clear) at h) in
    (
      subst (λ (s : SwitchConfig). Pairwise (IsMeant switch.vlans) switch.ports s.ports) (ok_inj h')
          (ports-IsMeant switch.vlans (name_to_id switch.vlans)
            (λ s v. named_lem switch.vlans s v clear) strict switch.ports hps),
      vlans,
      mirrors,
      clear,
    )
