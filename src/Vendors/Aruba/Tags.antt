-- ===== src/Vendors/Aruba/Tags.antt =====
-- What the commands for a port make of its VLANs.
use switch_configurator.Prelude.{
  ℕ, Bool, true, false, not, ◌&&◌, ◌||◌, ◌≡◌, refl, ◌∙◌, Option, none, some, List, [], ◌∷◌, ◌++◌,
  Text, text_eq, nat_eq, ◌!=◌, if◌then◌else◌, is_some, map, filter, contains, contains-append,
  contains-filter, arith, ==_iff, Bool-cases, inl, inr, unwrap_or,
}
use switch_configurator.Prelude.HashMap.{get}
use switch_configurator.Models.Hardware.{
  SpeedDuplex, SwitchModel, supports_poe, uses_legacy_mirror_syntax,
}
use switch_configurator.Models.Hardware.Ports.{PortCapabilities, port_capabilities}
use switch_configurator.Models.Network.{
  Port, PortMode, access, trunk, inferred_mode, MirrorDirection,
}
use switch_configurator.Models.State.{SwitchState}
use switch_configurator.Vendors.Aruba.{
  Command, enable, disable, untagged_vlan, no_tagged_vlan, tagged_vlan, speed_duplex,
}
use switch_configurator.Vendors.Aruba.Generate.{
  each, Sessions, not_native, name_commands, untag_commands, tag_commands, tagged_unless_empty,
  membership_commands, poe_for, poe_commands, mac_commands, monitor_command, monitor_commands,
  current_port, port_settings, normalize_port_id,
}

-- A port's untagged VLAN and its tagged ones, as an ArubaOS switch keeps them: `tagged vlan` adds, `no tagged
-- vlan` takes away, and the untagged VLAN is replaced.
abbrev pub Membership : Type 0
Membership = ℕ × List ℕ

abbrev pub obey : Command → Membership → Membership
obey (untagged_vlan n) (untagged, tagged) = (n, tagged)
obey (no_tagged_vlan n) (untagged, tagged) = (untagged, filter (λ v. v != n) tagged)
obey (tagged_vlan ns) (untagged, tagged) = (untagged, tagged ++ ns)
obey _ m = m

unfoldable pub obey_all : List Command → Membership → Membership
obey_all [] m = m
obey_all (c ∷ cs) m = obey_all cs (obey c m)

obey-append :
    (xs ys : List Command) (m : Membership) → obey_all (xs ++ ys) m ≡ obey_all ys (obey_all xs m)
unfolding obey_all
obey-append [] ys m = refl
obey-append (x ∷ xs) ys m = obey-append xs ys (obey x m)

-- commands that leave the membership alone
unfoldable Leaves : List Command → Type 0
unfolding obey_all
Leaves commands = (m : Membership) → obey_all commands m ≡ m

Leaves-append : (xs ys : List Command) → Leaves xs → Leaves ys → Leaves (xs ++ ys)
unfolding Leaves
Leaves-append xs ys h k = λ m. rw (obey-append xs ys m, h m, k m) refl

obey_all-Leaves :
    (xs ys : List Command) (m : Membership) → Leaves ys → obey_all (xs ++ ys) m ≡ obey_all xs m
unfolding Leaves
obey_all-Leaves xs ys m h = obey-append xs ys m ∙ h (obey_all xs m)

contains-obey_untag :
    (vs : List ℕ) (untagged : ℕ) (tagged : List ℕ) (v : ℕ)
    → ((obey_all (map no_tagged_vlan vs) (untagged, tagged)).0 ≡ untagged)
      × (contains (obey_all (map no_tagged_vlan vs) (untagged, tagged)).1 v
          ≡ (contains tagged v && not (contains vs v)))
unfolding obey_all contains
contains-obey_untag [] untagged tagged v = (refl, ground arith)
contains-obey_untag (w ∷ vs) untagged tagged v =
    let (same, rest) = contains-obey_untag vs untagged (filter (λ x. x != w) tagged) v in
    (same, ground (arith, rest, contains-filter (λ x. x != w) v tagged, ==_iff v w, ==_iff w v))

-- the VLANs that a port has tagged on the switch
abbrev pub membership_of : Port → Membership
membership_of port = (port.vlan, not_native port)

-- the untagged VLAN is the wanted one, and exactly the wanted ones are tagged
abbrev pub HasMembership : Port → Membership → Type 0
HasMembership port m = (m.0 ≡ port.vlan) × ((v : ℕ) → contains m.1 v ≡ contains (not_native port) v)

tag-obeyed :
    (port : Port) (untagged : ℕ) (tagged : List ℕ) (v : ℕ)
    → ((obey_all (tag_commands trunk port) (untagged, tagged)).0 ≡ untagged)
      × (contains (obey_all (tag_commands trunk port) (untagged, tagged)).1 v
          ≡ (contains tagged v || contains (not_native port) v))
unfolding obey_all contains
tag-obeyed port untagged tagged v = go (not_native port)
  where
    go :
        (vs : List ℕ)
        → ((obey_all (tagged_unless_empty vs) (untagged, tagged)).0 ≡ untagged)
          × (contains (obey_all (tagged_unless_empty vs) (untagged, tagged)).1 v
              ≡ (contains tagged v || contains vs v))
    go [] = (refl, ground arith)
    go (w ∷ vs) = (refl, contains-append tagged (w ∷ vs) v)

access_untagged : (port : Port) → inferred_mode port ≡ access → port.tagged_vlans ≡ []
unfolding inferred_mode
access_untagged port h = go port.tagged_vlans refl
  where
    go : (vs : List ℕ) → port.tagged_vlans ≡ vs → port.tagged_vlans ≡ []
    go [] e = e
    go (v ∷ vs) e = ground (arith, h, e)

membership-HasMembership :
    (mode : PortMode) (port current : Port)
    → inferred_mode port ≡ mode
    → HasMembership port (
        obey_all
          (untagged_vlan port.vlan
            ∷ (untag_commands mode port (some current) ++ tag_commands mode port))
          (membership_of current))
unfolding obey_all filter contains
membership-HasMembership access port current h =
    let out =
      λ (v : ℕ). contains-obey_untag (not_native current) port.vlan (not_native current) v in
    rw
      (
        obey-append (map no_tagged_vlan (not_native current)) [] (port.vlan, not_native current),
        access_untagged port h,
      )
      ((out 0).0, λ v. ground (arith, out v))
membership-HasMembership trunk port current h =
    let gone = filter (λ v. not (contains (not_native port) v)) (not_native current) in
    let left = obey_all (map no_tagged_vlan gone) (port.vlan, not_native current) in
    let out = λ (v : ℕ). contains-obey_untag gone port.vlan (not_native current) v in
    let added = λ (v : ℕ). tag-obeyed port left.0 left.1 v in
    rw
      (obey-append (map no_tagged_vlan gone) (tag_commands trunk port)
        (port.vlan, not_native current))
      (
        (added 0).0 ∙ (out 0).0,
        λ v. ground (
          arith,
          added v,
          out v,
          contains-filter (λ v. not (contains (not_native port) v)) v (not_native current),
        ),
      )

Leaves-each {ℓ} :
    {A : Type ℓ} (f : A → List Command) (xs : List A)
    → ((x : A) → Leaves (f x))
    → Leaves (each f xs)
unfolding Leaves each obey_all
Leaves-each f [] h = λ m. refl
Leaves-each f (x ∷ xs) h = Leaves-append (f x) (each f xs) (h x) (Leaves-each f xs h)

name-Leaves : (text : Option Text) (current : Option Port) → Leaves (name_commands text current)
unfolding Leaves obey_all
name-Leaves (some text) current = λ m. refl
name-Leaves none none = λ m. refl
name-Leaves none (some port) = elim (Bool-cases (is_some port.description)) [
  | inl e ↦ rw e (λ m. refl)
  | inr e ↦ rw e (λ m. refl)
]

enable-Leaves : (on : Bool) → Leaves ((if on then enable else disable) ∷ [])
unfolding Leaves obey_all
enable-Leaves true = λ m. refl
enable-Leaves false = λ m. refl

speed-Leaves : (speed : SpeedDuplex) → Leaves (speed_duplex speed ∷ [])
unfolding Leaves obey_all
speed-Leaves speed = λ m. refl

mac-Leaves : (on : Bool) → Leaves (mac_commands on)
unfolding Leaves obey_all
mac-Leaves true = λ m. refl
mac-Leaves false = λ m. refl

module _ (model : SwitchModel) where
  poe-Leaves : (port : Port) → Leaves (poe_commands model port)
  unfolding Leaves obey_all
  poe-Leaves port = elim (Bool-cases (supports_poe model)) [
    | inl e ↦ elim (Bool-cases port.poe_enabled) [
      | inl p ↦ rw (e, p) (go (port_capabilities model port.port_id))
      | inr p ↦ rw (e, p) (λ m. refl)
    ]
    | inr e ↦ rw e (λ m. refl)
  ]
    where
      go : (caps : Option PortCapabilities) → Leaves (poe_for caps)
      go none = λ m. refl
      go (some caps) = elim (Bool-cases (is_some caps.poe_support)) [
        | inl e ↦ rw e (λ m. refl)
        | inr e ↦ rw e (λ m. refl)
      ]

  monitor-Leaves : (ss : List (Text × MirrorDirection)) → Leaves (monitor_commands model ss)
  unfolding Leaves obey_all
  monitor-Leaves [] = λ m. refl
  monitor-Leaves (s ∷ ss) = elim (Bool-cases (uses_legacy_mirror_syntax model)) [
    | inl e ↦ rw e (λ m. refl)
    | inr e ↦ rw e (Leaves-each monitor_command (s ∷ ss) (λ x m. refl))
  ]

  -- A port that the driver knows the state of has, once the switch has obeyed the commands that are generated
  -- for it, the wanted untagged VLAN, and exactly the wanted VLANs tagged, whatever it had before.
  pub port_settings-HasMembership :
      (current_state : Option SwitchState) (sessions : Sessions) (port current : Port)
      → current_port model current_state port.port_id ≡ some current
      → HasMembership port
          (obey_all (port_settings model current_state sessions port) (membership_of current))
  unfolding port_settings Leaves
  port_settings-HasMembership current_state sessions port current h =
      let known = current_port model current_state port.port_id in
      let m = membership_of current in
      let named = name_commands port.description known in
      let member = named ++ membership_commands port known in
      let enabled = member ++ (if port.enabled then enable else disable) ∷ [] in
      let powered = enabled ++ poe_commands model port in
      let notified = powered ++ mac_commands port.mac_notify in
      let timed = notified ++ speed_duplex port.speed_duplex ∷ [] in
      let monitored = unwrap_or (get (normalize_port_id port.port_id) sessions) [] in
      rw
        (
          obey_all-Leaves timed (monitor_commands model monitored) m (monitor-Leaves monitored),
          obey_all-Leaves notified (speed_duplex port.speed_duplex ∷ []) m
              (speed-Leaves port.speed_duplex),
          obey_all-Leaves powered (mac_commands port.mac_notify) m (mac-Leaves port.mac_notify),
          obey_all-Leaves enabled (poe_commands model port) m (poe-Leaves port),
          obey_all-Leaves member ((if port.enabled then enable else disable) ∷ []) m
              (enable-Leaves port.enabled),
          obey-append named (membership_commands port known) m,
          name-Leaves port.description known m,
          h,
        )
        (membership-HasMembership (inferred_mode port) port current refl)
