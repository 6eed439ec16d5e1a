-- ===== src/Config/Merge/Identity.antt =====
-- The identity of a merged switch: `validate_switch_identity` with `merge_single_switch`.
use switch_configurator.Prelude.{
  ℕ, ◌≡◌, refl, ◌∙◌, sym, Bool, Option, none, some, List, [], ◌∷◌, ◌++◌, Eq, or_option, is_some,
  All, arith, ==_iff, inl, inr, Text, text_eq, nat_eq, ◌⊎◌,
}
use switch_configurator.Prelude.Sort.{All-sort, All-of_sort}
use switch_configurator.Models.Hardware.{switch_model_eq, SwitchModel}
use switch_configurator.Models.Network.{option_id_eq}
use switch_configurator.Models.SwitchConfig.{SwitchConfig}
use switch_configurator.Models.State.{SwitchState}
use switch_configurator.Diff.{Orders, compute_diff, diff_management_vlan}
use switch_configurator.Diff.Vlans.{diff_vlans}
use switch_configurator.Diff.Ports.{diff_ports}
use switch_configurator.Diff.Mirrors.{diff_mirrors}
use switch_configurator.Diff.Snmp.{diff_snmp}
use switch_configurator.Config.Merge.{
  ConfigWithMetadata, by_priority, merge_sorted, merge_single_switch, merge_identity, empty_switch,
  IdentityField, reference, conflict_with, identity_conflicts, validate_switch_identity, hostname,
  management_ip, model,
}

-- a value that is wanted, if it is, is the one there
abbrev pub Agrees {ℓ} : {V : Type ℓ} → Option V → Option V → Type ℓ
Agrees there none = Unit
Agrees there (some v) = there ≡ some v

append_none : {A : Type 0} (xs ys : List A) → xs ++ ys ≡ [] → (xs ≡ []) × (ys ≡ [])
append_none [] ys h = (refl, h)
append_none (x ∷ xs) ys h = cc

module _ {V : Type 0} ⦃e : Eq V⦄ (component : IdentityField) (field : SwitchConfig → Option V) where
  abbrev ref_value : Option (V × Text × ℕ) → Option V
  ref_value none = none
  ref_value (some x) = some x.0

  -- the first value of the field, after one from before
  unfoldable first_value : Option V → List ConfigWithMetadata → Option V
  first_value acc [] = acc
  first_value acc (c ∷ cs) = first_value (or_option acc (field c.switch)) cs

  -- each config has no value or the one given
  abbrev AllAgree : Option V → List ConfigWithMetadata → Type 0
  AllAgree there cs = All (λ c. Agrees there (field c.switch)) cs

  no_conflict :
      (ref : Option (V × Text × ℕ)) (c : ConfigWithMetadata)
      → (ref ≡ none → field c.switch ≡ none)
      → conflict_with component field ref c ≡ []
      → Agrees (ref_value ref) (field c.switch)
  unfolding conflict_with
  no_conflict none c h k = rw (h refl) tt
  no_conflict (some (v, source, priority)) c h k = go (field c.switch) refl
    where
      go : (o : Option V) → field c.switch ≡ o → Agrees (some v) o
      go none q = tt
      go (some w) q = ground (arith, q, e.eq_test_iff w v)

  reference-none :
      (cs : List ConfigWithMetadata)
      → reference component field cs ≡ none
      → All (λ c. field c.switch ≡ none) cs
  unfolding reference
  reference-none [] h = tt
  reference-none (c ∷ cs) h = (ground arith, reference-none cs (ground arith))

  first_value-some : (u : V) (cs : List ConfigWithMetadata) → first_value (some u) cs ≡ some u
  unfolding first_value
  first_value-some u [] = refl
  first_value-some u (c ∷ cs) = first_value-some u cs

  first_agrees :
      (v acc : Option V) (cs : List ConfigWithMetadata)
      → AllAgree v cs
      → (acc ≡ none) ⊎ (acc ≡ v)
      → AllAgree (first_value acc cs) cs
  unfolding first_value
  first_agrees v acc [] h k = tt
  first_agrees v acc (c ∷ cs) (hc, h) k =
      go acc (field c.switch) hc k (λ a ka. first_agrees v a cs h ka)
    where
      go :
          (a o : Option V)
          → Agrees v o
          → (a ≡ none) ⊎ (a ≡ v)
          → ((b : Option V) → (b ≡ none) ⊎ (b ≡ v) → AllAgree (first_value b cs) cs)
          → Agrees (first_value (or_option a o) cs) o × AllAgree (first_value (or_option a o) cs) cs
      go none none hc k rec = (tt, rec none k)
      go none (some w) hc k rec = (first_value-some w cs, rec (some w) (inr (sym hc)))
      go (some u) none hc k rec = (tt, rec (some u) k)
      go (some u) (some w) hc (inl q) rec = ground (arith, q)
      go (some u) (some w) hc (inr q) rec = (first_value-some u cs ∙ q ∙ hc, rec (some u) (inr q))

  -- no conflict with the first value, in any order of the configs
  agree_of_none :
      (configs cs : List ConfigWithMetadata)
      → All (λ c. conflict_with component field (reference component field configs) c ≡ []) cs
      → All (λ c. reference component field configs ≡ none → field c.switch ≡ none) cs
      → AllAgree (ref_value (reference component field configs)) cs
  agree_of_none configs [] h k = tt
  agree_of_none configs (c ∷ cs) (hc, h) (kc, k) =
      (no_conflict (reference component field configs) c kc hc, agree_of_none configs cs h k)

  none-All :
      (configs cs : List ConfigWithMetadata)
      → (reference component field configs ≡ none → All (λ c. field c.switch ≡ none) cs)
      → All (λ c. reference component field configs ≡ none → field c.switch ≡ none) cs
  none-All configs [] h = tt
  none-All configs (c ∷ cs) h = (λ q. (h q).0, none-All configs cs (λ q. (h q).1))

  merged_agrees :
      (configs : List ConfigWithMetadata)
      → All (λ c. conflict_with component field (reference component field configs) c ≡ []) configs
      → AllAgree (first_value none (by_priority configs)) configs
  unfolding by_priority
  merged_agrees configs h = All-of_sort _ _ configs (
      first_agrees (ref_value (reference component field configs)) none (by_priority configs)
        (All-sort _ _ configs
          (agree_of_none configs configs h (none-All configs configs (reference-none configs))))
        (inl refl))

conflicts_none :
    (h i : Option (Text × Text × ℕ)) (m : Option (SwitchModel × Text × ℕ))
    (cs : List ConfigWithMetadata)
    → identity_conflicts h i m cs ≡ []
    → All (λ c. conflict_with hostname (λ s. s.hostname) h c ≡ []) cs
      × All (λ c. conflict_with management_ip (λ s. s.management_ip) i c ≡ []) cs
      × All (λ c. conflict_with model (λ s. s.model) m c ≡ []) cs
unfolding identity_conflicts
conflicts_none h i m [] q = (tt, tt, tt)
conflicts_none h i m (c ∷ cs) q =
    let ch = conflict_with hostname (λ s. s.hostname) h c in
    let ci = conflict_with management_ip (λ s. s.management_ip) i c in
    let cm = conflict_with model (λ s. s.model) m c in
    let (q₁, q₃) = append_none (ch ++ ci ++ cm) (identity_conflicts h i m cs) q in
    let (q₂, qm) = append_none (ch ++ ci) cm q₁ in
    let (qh, qi) = append_none ch ci q₂ in
    let (rh, ri, rm) = conflicts_none h i m cs q₃ in ((qh, rh), (qi, ri), (qm, rm))

merge_identity_lem :
    (s : SwitchConfig) (cs : List ConfigWithMetadata)
    → ((merge_identity s cs).hostname ≡ first_value hostname (λ x. x.hostname) s.hostname cs)
      × ((merge_identity s cs).management_ip
          ≡ first_value management_ip (λ x. x.management_ip) s.management_ip cs)
      × ((merge_identity s cs).model ≡ first_value model (λ x. x.model) s.model cs)
      × ((merge_identity s cs).management_vlan ≡ s.management_vlan)
unfolding merge_identity first_value
merge_identity_lem s [] = (refl, refl, refl, refl)
merge_identity_lem s (c ∷ cs) =
    merge_identity_lem
      (record s {
        hostname = or_option s.hostname c.switch.hostname;
        model = or_option s.model c.switch.model;
        management_ip = or_option s.management_ip c.switch.management_ip;
        credentials = or_option s.credentials c.switch.credentials;
      })
      cs

-- the merged switch agrees with a config on the three fields
abbrev pub AgreesWith : SwitchConfig → ConfigWithMetadata → Type 0
AgreesWith merged c =
    Agrees merged.hostname c.switch.hostname
    × Agrees merged.management_ip c.switch.management_ip
    × Agrees merged.model c.switch.model

All-AgreesWith :
    (merged : SwitchConfig) (cs : List ConfigWithMetadata)
    → All (λ c. Agrees merged.hostname c.switch.hostname) cs
    → All (λ c. Agrees merged.management_ip c.switch.management_ip) cs
    → All (λ c. Agrees merged.model c.switch.model) cs
    → All (AgreesWith merged) cs
All-AgreesWith merged [] h i m = tt
All-AgreesWith merged (c ∷ cs) (hc, h) (ic, i) (mc, m) =
    ((hc, ic, mc), All-AgreesWith merged cs h i m)

module _ (switch_id : Text) (configs : List ConfigWithMetadata) where
  abbrev pub merged_switch : SwitchConfig
  merged_switch = (merge_single_switch switch_id configs).0

  -- If no conflict is found between the configs, in whatever order they are, then the merged switch
  -- has the hostname, the address and the model of every config that gives one.
  pub merged_identity :
      validate_switch_identity configs ≡ [] → All (AgreesWith merged_switch) configs
  unfolding validate_switch_identity merge_single_switch merge_sorted
  merged_identity h =
      let (qh, qi, qm) = conflicts_none _ _ _ configs h in
      let (eh, ei, em, _) = merge_identity_lem (empty_switch switch_id) (by_priority configs) in
      All-AgreesWith merged_switch configs
        (rw eh (merged_agrees hostname (λ x. x.hostname) configs qh))
        (rw ei (merged_agrees management_ip (λ x. x.management_ip) configs qi))
        (rw em (merged_agrees model (λ x. x.model) configs qm))

  -- A merged switch has no management VLAN, whatever the configs say: for a switch that has one, the
  -- difference is to take it away.
  pub merged_management_vlan :
      (o : Orders) (current : SwitchState) (enforce : Bool)
      → ((compute_diff o current merged_switch enforce).management_vlan ≡ none)
        × ((compute_diff o current merged_switch enforce).management_vlan_changed
            ≡ is_some current.management_vlan)
  unfolding compute_diff diff_vlans diff_ports diff_mirrors diff_snmp diff_management_vlan
      merge_single_switch merge_sorted
  merged_management_vlan o current enforce =
      let gone = (merge_identity_lem (empty_switch switch_id) (by_priority configs)).3 in
      (rw gone (ground arith), rw gone (ground (arith, ==_iff current.management_vlan none)))
