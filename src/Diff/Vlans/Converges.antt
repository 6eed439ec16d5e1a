-- ===== src/Diff/Vlans/Converges.antt =====
-- `diff_vlans` against a switch that carries it out.
use switch_configurator.Prelude.{
  append-nil, Bool-cases, inl, inr, ℕ, ◌≡◌, Bool, true, not, ◌&&◌, Option, none, some, List, arith,
  nat_eq, text_eq, ◌==◌, contains, filter, if◌then◌else◌, contains-filter, ==_refl,
}
use switch_configurator.Prelude.HashMap.{HashOrder}
use switch_configurator.Models.Network.{Vlan, option_text_eq, vlan_ip_config_eq}
use switch_configurator.Models.SwitchConfig.{SwitchConfig}
use switch_configurator.Models.State.{SwitchState, StateDiff, empty_diff}
use switch_configurator.Diff.Keyed.{
  added, removed, changed, entry, has, entry-added, contains-removed, entry-changed,
}
use switch_configurator.Diff.Keyed.Settled.{
  Listed, settled_entry, entry-settled, added-settled, kept-settled, changed-settled,
}
use switch_configurator.Diff.Vlans.{
  vlan_key, vlans_equivalent_for_model, describes_vlans, diff_vlans,
}
use switch_configurator.Diff.Apply.{apply_vlans}

-- A VLAN is equivalent to itself.
pub vlans_equivalent_refl :
    (describes : Bool) (v : Vlan) → vlans_equivalent_for_model v v describes ≡ true
unfolding vlans_equivalent_for_model
vlans_equivalent_refl describes v =
    ground (arith, ==_refl v.name, ==_refl v.ip_config, ==_refl v.description)

abbrev stays : ℕ → Bool
stays id = id == 1

module _ (order : HashOrder ℕ) (current : SwitchState) (desired : SwitchConfig) where
  abbrev pub same : Vlan → Vlan → Bool
  same c w = vlans_equivalent_for_model c w (describes_vlans desired.model)

  abbrev news : List Vlan
  news = added vlan_key order current.vlans desired.vlans

  abbrev updates : List Vlan
  updates = changed vlan_key order same current.vlans desired.vlans

  abbrev gone : List ℕ
  gone = filter (λ id. not (id == 1)) (removed vlan_key order current.vlans desired.vlans)

  gone_at :
      (id : ℕ)
      → contains gone id
        ≡ (not (stays id) && (has vlan_key current.vlans id && not (has vlan_key desired.vlans id)))
  gone_at id = ground (
    arith,
    contains-filter (λ j. not (j == 1)) id (removed vlan_key order current.vlans desired.vlans),
    contains-removed vlan_key order current.vlans desired.vlans id,
  )

  listed : Listed vlan_key same stays current.vlans desired.vlans news updates gone
  listed = record {
    news_at = entry-added vlan_key order current.vlans desired.vlans;
    updates_at = entry-changed vlan_key order current.vlans desired.vlans same;
    gone_at = gone_at;
  }

-- What is to stand at an id, from what is wanted there and what stood there.
abbrev pub Reached : (describes keep : Bool) (wanted old new : Option Vlan) → Type 0
Reached describes keep none old new = new ≡ (if keep then old else none)
Reached describes keep (some w) old none = ⊥
Reached describes keep (some w) old (some v) = vlans_equivalent_for_model v w describes ≡ true

Reached-settled_entry :
    (describes keep : Bool) (wanted old : Option Vlan)
    → Reached describes keep wanted old
        (settled_entry (λ c w. vlans_equivalent_for_model c w describes) old wanted keep)
Reached-settled_entry describes keep none none = ground arith
Reached-settled_entry describes keep none (some v) = ground arith
Reached-settled_entry describes keep (some w) none = vlans_equivalent_refl describes w
Reached-settled_entry describes keep (some w) (some v) =
    elim (Bool-cases (vlans_equivalent_for_model v w describes)) [
      | inl h ↦ rw h h
      | inr h ↦ rw h (vlans_equivalent_refl describes w)
    ]

module _ (order : HashOrder ℕ) (current : SwitchState) (desired : SwitchConfig) where
  abbrev pub vlan_diff : StateDiff
  vlan_diff = diff_vlans order current desired empty_diff

  -- After the switch has carried out the VLAN part of a difference, it has at each id: a VLAN that is
  -- equivalent to the wanted one, if one is wanted; its own old VLAN 1, if none is wanted with
  -- id 1; and no VLAN at any other id.
  pub vlans-Reached :
      (id : ℕ)
      → Reached
          (describes_vlans desired.model)
          (id == 1)
          (entry vlan_key id desired.vlans)
          (entry vlan_key id current.vlans)
          (entry vlan_key id (apply_vlans vlan_diff current.vlans))
  unfolding diff_vlans
  vlans-Reached id = rw (entry-settled (listed order current desired) id) (
      Reached-settled_entry (describes_vlans desired.model) (id == 1)
        (entry vlan_key id desired.vlans) (entry vlan_key id current.vlans))

  -- A VLAN is listed for removal exactly if it is not VLAN 1, the switch has it and it is not wanted.
  vlans_to_remove_exact :
      (id : ℕ)
      → contains vlan_diff.vlans_to_remove id
        ≡ (not (id == 1) && (has vlan_key current.vlans id && not (has vlan_key desired.vlans id)))
  unfolding diff_vlans
  vlans_to_remove_exact = gone_at order current desired

  -- The same comparison, whatever the order in which the tables are visited now, then finds nothing.
  pub vlans_converge :
      (order' : HashOrder ℕ) (after : SwitchState) (diff : StateDiff)
      → after.vlans ≡ apply_vlans vlan_diff current.vlans
      → diff_vlans order' after desired diff ≡ diff
  unfolding diff_vlans
  vlans_converge order' after diff h =
      let l = listed order current desired in
      rw (
        h,
        added-settled l order',
        kept-settled l order',
        changed-settled l order' (vlans_equivalent_refl (describes_vlans desired.model)),
        append-nil,
        append-nil,
        append-nil,
      )
