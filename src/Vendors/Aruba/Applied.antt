-- ===== src/Vendors/Aruba/Applied.antt =====
-- What `apply_diff` sends keeps to the levels of the command line.
use switch_configurator.Prelude.{
  is_none, ℕ, Bool, true, false, not, ◌||◌, ◌≡◌, refl, subst, Option, none, some, some_inj, List,
  [], ◌∷◌, ◌++◌, Text, text_eq, nat_eq, All, All-append, Bool-cases, inl, inr, arith, filter, ◌!=◌,
}
use switch_configurator.Prelude.HashMap.{HashOrder}
use switch_configurator.Models.Hardware.{SwitchModel, supports_poe}
use switch_configurator.Models.Network.{Port, PortMirror}
use switch_configurator.Models.Snmp.{
  SnmpConfig, SnmpCommunity, TrapType, mac_notify, link_change, all,
}
use switch_configurator.Models.State.{SwitchState, StateDiff, SnmpStateDiff, has_snmp_changes}
use switch_configurator.Models.SwitchConfig.{SwitchConfig}
use switch_configurator.SnmpReads.{effective_snmp}
use switch_configurator.Diff.{diff_management_vlan, Orders, compute_diff}
use switch_configurator.Diff.Snmp.{diff_snmp, snmp_difference, difference_has_changes}
use switch_configurator.Diff.Migration.{find_ports_to_migrate}
use switch_configurator.Vendors.Aruba.{
  Command, exit, disable, untagged_vlan, no_tagged_vlan, no_name, no_mac_learned, no_mac_removed,
  no_community, no_host,
}
use switch_configurator.Vendors.Aruba.Generate.{
  each, configuring, not_native, current_port, community_command, host_command,
}
use switch_configurator.Vendors.Aruba.Apply.{
  update_commands, enable_traps, disable_traps, snmp_diff_commands, mirror_dest_block,
  mirror_dest_commands, send_if, management_batch, untag_reset, reset_poe, reset_settings,
  reset_ports_block, reset_ports_commands, migration_batch, removal_batches, snmp_batch,
  early_batches, with_late, apply_diff,
}
use switch_configurator.Vendors.Aruba.Levels.{
  exec, config, in_interface, after_commands, after-append, StaysAt, stays-append, stays-map,
  stays-each, stays-configuring,
}
use switch_configurator.Vendors.Aruba.Blocks.{
  vlan_commands-StaysAt, remove_vlan_commands-StaysAt, remove_mirror_commands-StaysAt,
  mirror_commands-StaysAt,
}
use switch_configurator.Vendors.Aruba.Nested.{port_commands-StaysAt, migration_commands-StaysAt}

update-StaysAt : (c : SnmpCommunity) → StaysAt config (update_commands c)
unfolding StaysAt after_commands
update-StaysAt c = refl

enable_traps-StaysAt : (t : TrapType) → StaysAt config (enable_traps t)
unfolding StaysAt after_commands
enable_traps-StaysAt mac_notify = refl
enable_traps-StaysAt link_change = refl
enable_traps-StaysAt all = refl

disable_traps-StaysAt : (t : TrapType) → StaysAt config (disable_traps t)
unfolding StaysAt after_commands
disable_traps-StaysAt mac_notify = refl
disable_traps-StaysAt link_change = refl
disable_traps-StaysAt all = refl

snmp_diff-StaysAt : (d : SnmpStateDiff) → StaysAt exec (snmp_diff_commands d)
unfolding snmp_diff_commands
snmp_diff-StaysAt d = stays-configuring _ (
    stays-append config _ _
      (stays-append config _ _
        (stays-append config _ _
          (stays-append config _ _
            (stays-append config _ _
              (stays-append config _ _
                (stays-map config no_community d.communities_to_remove (λ s. refl))
                (stays-each config update_commands d.communities_to_update update-StaysAt))
              (stays-map config community_command d.communities_to_add (λ c. refl)))
            (stays-map config no_host d.trap_receivers_to_remove (λ h. refl)))
          (stays-map config host_command d.trap_receivers_to_add (λ r. refl)))
        (stays-each config enable_traps d.traps_to_enable enable_traps-StaysAt))
      (stays-each config disable_traps d.traps_to_disable disable_traps-StaysAt))

mirror_dest_block-StaysAt : (port_id : Text) → StaysAt config (mirror_dest_block port_id)
unfolding StaysAt after_commands
mirror_dest_block-StaysAt port_id = refl

-- lists of commands, each of which starts and ends at the exec level
abbrev pub AllStay : List (List Command) → Type 0
AllStay batches = All (StaysAt exec) batches

send_if-AllStay {ℓ} :
    {A : Type ℓ} (xs : List A) (commands : List Command)
    → StaysAt exec commands
    → AllStay (send_if xs commands)
send_if-AllStay [] commands h = tt
send_if-AllStay (x ∷ xs) commands h = (h, tt)

management-StaysAt : (changed : Bool) (vlan : Option ℕ) → AllStay (management_batch changed vlan)
unfolding StaysAt after_commands
management-StaysAt false vlan = tt
management-StaysAt true none = (refl, tt)
management-StaysAt true (some v) = (refl, tt)

reset_start-StaysAt : StaysAt in_interface (disable ∷ no_name ∷ untagged_vlan 1 ∷ [])
unfolding StaysAt after_commands
reset_start-StaysAt = refl

reset_macs-StaysAt : StaysAt in_interface (no_mac_learned ∷ no_mac_removed ∷ [])
unfolding StaysAt after_commands
reset_macs-StaysAt = refl

untag_reset-StaysAt : (o : Option Port) → StaysAt in_interface (untag_reset o)
unfolding StaysAt after_commands
untag_reset-StaysAt none = refl
untag_reset-StaysAt (some port) =
    stays-map in_interface no_tagged_vlan (not_native port) (λ v. refl)

reset_poe-StaysAt : (model : SwitchModel) → StaysAt in_interface (reset_poe model)
unfolding StaysAt after_commands
reset_poe-StaysAt model = elim (Bool-cases (supports_poe model)) [
  | inl e ↦ rw e refl
  | inr e ↦ rw e refl
]

module _ (model : SwitchModel) (current_state : Option SwitchState) where
  reset_settings-StaysAt :
      (port_id : Text) → StaysAt in_interface (reset_settings model current_state port_id)
  unfolding reset_settings
  reset_settings-StaysAt port_id =
      stays-append in_interface _ _
        (stays-append in_interface _ _
          (stays-append in_interface _ _ reset_start-StaysAt
            (untag_reset-StaysAt (current_port model current_state port_id)))
          reset_macs-StaysAt)
        (reset_poe-StaysAt model)

  reset_block-StaysAt :
      (port_id : Text) → StaysAt config (reset_ports_block model current_state port_id)
  unfolding StaysAt after_commands
  reset_block-StaysAt port_id =
      rw
        (after-append (reset_settings model current_state port_id) (exit ∷ []) in_interface
          in_interface (reset_settings-StaysAt port_id))
        refl

migration-AllStay :
    (current_state : Option SwitchState) (order : HashOrder ℕ) (vlans : List ℕ)
    → AllStay (migration_batch current_state order vlans)
migration-AllStay none order vlans = tt
migration-AllStay (some state) order vlans =
    send_if-AllStay (find_ports_to_migrate state vlans) _
      (migration_commands-StaysAt order (find_ports_to_migrate state vlans))

removal-AllStay :
    (current_state : Option SwitchState) (order : HashOrder ℕ) (vlans : List ℕ)
    → AllStay (removal_batches current_state order vlans)
removal-AllStay current_state order [] = tt
removal-AllStay current_state order (v ∷ vs) =
    All-append (StaysAt exec) (migration_batch current_state order (v ∷ vs)) _
      (migration-AllStay current_state order (v ∷ vs)) (remove_vlan_commands-StaysAt (v ∷ vs), tt)

snmp_batch-AllStay :
    (changed : Bool) (d : Option SnmpStateDiff) (snmp : Option SnmpConfig)
    (batches : List (List Command))
    → snmp_batch changed d snmp ≡ some batches
    → AllStay batches
snmp_batch-AllStay changed (some d) snmp batches q = elim (Bool-cases (has_snmp_changes d)) [
  | inl e ↦
      subst AllStay {x = snmp_diff_commands d ∷ []} (ground (arith, q, e)) (snmp_diff-StaysAt d, tt)
  | inr e ↦ subst AllStay {x = []} (ground (arith, q, e)) tt
]
snmp_batch-AllStay false none snmp batches q = subst AllStay (some_inj q) tt
snmp_batch-AllStay true none none batches q = subst AllStay (some_inj q) tt
snmp_batch-AllStay true none (some snmp) batches q = ground arith

then_send {ℓ} :
    {A : Type ℓ} (batches : List (List Command)) (xs : List A) (commands : List Command)
    → StaysAt exec commands
    → AllStay batches
    → AllStay (batches ++ send_if xs commands)
then_send batches xs commands h k =
    All-append (StaysAt exec) batches (send_if xs commands) k (send_if-AllStay xs commands h)

module _ (model : SwitchModel) (current_state : Option SwitchState) (port_mirrors : List PortMirror)
    (order : HashOrder ℕ) (diff : StateDiff) where
  early-AllStay : AllStay (early_batches model current_state port_mirrors order diff)
  unfolding reset_ports_commands mirror_dest_commands
  early-AllStay =
      let removed = filter (λ v. v != 1) diff.vlans_to_remove in
      let reset = each (reset_ports_block model current_state) diff.ports_to_reset in
      let dests = each mirror_dest_block diff.mirror_dest_ports_to_configure in
      then_send _ diff.mirrors_to_update _ (mirror_commands-StaysAt model diff.mirrors_to_update) (
        then_send _ diff.mirrors_to_add _ (mirror_commands-StaysAt model diff.mirrors_to_add) (
          then_send _ diff.mirrors_to_remove _
            (remove_mirror_commands-StaysAt diff.mirrors_to_remove)
            (then_send _ diff.mirror_dest_ports_to_configure (configuring dests)
              (stays-configuring dests (
                stays-each config mirror_dest_block diff.mirror_dest_ports_to_configure
                  mirror_dest_block-StaysAt))
              (then_send _ diff.ports_to_reset (configuring reset)
                (stays-configuring reset (
                  stays-each config (reset_ports_block model current_state) diff.ports_to_reset
                    (reset_block-StaysAt model current_state)))
                (then_send _ diff.ports_to_configure _
                  (port_commands-StaysAt model current_state diff.ports_to_configure port_mirrors)
                  (then_send _ diff.vlans_to_update _ (vlan_commands-StaysAt diff.vlans_to_update) (
                    then_send _ diff.vlans_to_add _ (vlan_commands-StaysAt diff.vlans_to_add)
                      (removal-AllStay current_state order removed))))))))

  late-AllStay :
      (o : Option (List (List Command))) (batches : List (List Command))
      → ((snmp : List (List Command)) → o ≡ some snmp → AllStay snmp)
      → with_late (early_batches model current_state port_mirrors order diff) o diff ≡ some batches
      → AllStay batches
  late-AllStay none batches h q = ground arith
  late-AllStay (some snmp) batches h q = subst AllStay (some_inj q) (
      All-append (StaysAt exec) _ _ (All-append (StaysAt exec) _ snmp early-AllStay (h snmp refl))
        (management-StaysAt diff.management_vlan_changed diff.management_vlan))

  applied-AllStay :
      (batches : List (List Command))
      → apply_diff model current_state port_mirrors order diff ≡ some batches
      → AllStay batches
  unfolding apply_diff
  applied-AllStay batches q =
      late-AllStay (snmp_batch diff.snmp_config_changed diff.snmp_diff diff.snmp_config) batches
        (λ snmp. snmp_batch-AllStay diff.snmp_config_changed diff.snmp_diff diff.snmp_config snmp) q

-- a difference that says what changes in the SNMP part
abbrev is_granular : StateDiff → Bool
is_granular diff = not diff.snmp_config_changed || not (is_none diff.snmp_diff)

has_changes_granular :
    (d : Option SnmpStateDiff) → (not (difference_has_changes d) || not (is_none d)) ≡ true
has_changes_granular none = refl
has_changes_granular (some d) = ground arith

computed_granular :
    (o : Orders) (current : SwitchState) (desired : SwitchConfig) (enforce : Bool)
    → is_granular (compute_diff o current desired enforce) ≡ true
unfolding compute_diff diff_snmp diff_management_vlan
computed_granular o current desired enforce =
    has_changes_granular (snmp_difference o.texts o.traps current.snmp (effective_snmp desired))

snmp_batch_given :
    (changed : Bool) (d : Option SnmpStateDiff) (snmp : Option SnmpConfig)
    → (not changed || not (is_none d)) ≡ true
    → (batches : List (List Command)) × (snmp_batch changed d snmp ≡ some batches)
snmp_batch_given changed (some d) snmp h = (_, refl)
snmp_batch_given false none snmp h = (_, refl)
snmp_batch_given true none snmp h = absurd (ground arith)

apply_diff_given :
    (model : SwitchModel) (current_state : Option SwitchState) (port_mirrors : List PortMirror)
    (order : HashOrder ℕ) (diff : StateDiff)
    → is_granular diff ≡ true
    → (batches : List (List Command)) × (apply_diff model current_state port_mirrors order diff
        ≡ some batches)
unfolding apply_diff
apply_diff_given model current_state port_mirrors order diff h =
    let (snmp, q) = snmp_batch_given diff.snmp_config_changed diff.snmp_diff diff.snmp_config h in
    rw q (_, refl)

pub apply_computed-AllStay :
    (o : Orders) (order : HashOrder ℕ) (model : SwitchModel) (current : SwitchState)
    (desired : SwitchConfig) (enforce : Bool)
    → (batches : List (List Command)) × (apply_diff model
          (some current)
          desired.port_mirrors
          order
          (compute_diff o current desired enforce)
        ≡ some batches)
      × AllStay batches
apply_computed-AllStay o order model current desired enforce =
    let diff = compute_diff o current desired enforce in
    let (batches, q) =
      apply_diff_given model (some current) desired.port_mirrors order diff
        (computed_granular o current desired enforce) in
    (batches, q, applied-AllStay model (some current) desired.port_mirrors order diff batches q)
