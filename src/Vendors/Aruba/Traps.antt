-- ===== src/Vendors/Aruba/Traps.antt =====
-- What the commands for an SNMP difference make of the traps that the switch sends.
use switch_configurator.Prelude.{
  ap, Bool, true, false, not, ◌&&◌, ◌||◌, ◌≡◌, refl, ◌∙◌, List, [], ◌∷◌, ◌++◌, map, contains, arith,
}
use switch_configurator.Models.Snmp.{
  SnmpCommunity, TrapType, mac_notify, link_change, all, trap_type_eq,
}
use switch_configurator.Models.State.{SnmpStateDiff}
use switch_configurator.Vendors.Aruba.{
  Command, exit, traps, no_traps, no_link_traps, no_community, no_host,
}
use switch_configurator.Vendors.Aruba.Generate.{each, community_command, host_command}
use switch_configurator.Vendors.Aruba.Apply.{
  update_commands, enable_traps, disable_traps, snmp_diff_commands,
}

-- whether the switch sends traps on MAC addresses, and on links
pub record Traps : Type 0 where
  pub mac : Bool
  pub link : Bool

abbrev pub obey_trap : Command → Traps → Traps
obey_trap (traps mac_notify) s = record { mac = true; link = s.link }
obey_trap (traps link_change) s = record { mac = s.mac; link = true }
obey_trap (traps all) s = record { mac = true; link = true }
obey_trap (no_traps mac_notify) s = record { mac = false; link = s.link }
obey_trap (no_traps link_change) s = record { mac = s.mac; link = false }
obey_trap (no_traps all) s = record { mac = false; link = false }
obey_trap no_link_traps s = record { mac = s.mac; link = false }
obey_trap _ s = s

unfoldable pub traps_after : List Command → Traps → Traps
traps_after [] s = s
traps_after (c ∷ cs) s = traps_after cs (obey_trap c s)

traps-append :
    (xs ys : List Command) (s : Traps)
    → traps_after (xs ++ ys) s ≡ traps_after ys (traps_after xs s)
unfolding traps_after
traps-append [] ys s = refl
traps-append (x ∷ xs) ys s = traps-append xs ys (obey_trap x s)

-- a trap or all of them
abbrev pub listed : List TrapType → TrapType → Bool
listed ts t = contains ts t || contains ts all

traps_enabled :
    (ts : List TrapType) (s : Traps)
    → ((traps_after (each enable_traps ts) s).mac ≡ (s.mac || listed ts mac_notify))
      × ((traps_after (each enable_traps ts) s).link ≡ (s.link || listed ts link_change))
unfolding traps_after each contains trap_type_eq
traps_enabled [] s = (ground arith, ground arith)
traps_enabled (mac_notify ∷ ts) s =
    let (m, l) = traps_enabled ts (record { mac = true; link = s.link }) in
    (ground (arith, m), ground (arith, l))
traps_enabled (link_change ∷ ts) s =
    let (m, l) = traps_enabled ts (record { mac = s.mac; link = true }) in
    (ground (arith, m), ground (arith, l))
traps_enabled (all ∷ ts) s =
    let (m, l) = traps_enabled ts (record { mac = true; link = true }) in
    (ground (arith, m), ground (arith, l))

traps_disabled :
    (ts : List TrapType) (s : Traps)
    → ((traps_after (each disable_traps ts) s).mac ≡ (s.mac && not (listed ts mac_notify)))
      × ((traps_after (each disable_traps ts) s).link ≡ (s.link && not (listed ts link_change)))
unfolding traps_after each contains trap_type_eq
traps_disabled [] s = (ground arith, ground arith)
traps_disabled (mac_notify ∷ ts) s =
    let (m, l) = traps_disabled ts (record { mac = false; link = s.link }) in
    (ground (arith, m), ground (arith, l))
traps_disabled (link_change ∷ ts) s =
    let (m, l) = traps_disabled ts (record { mac = s.mac; link = false }) in
    (ground (arith, m), ground (arith, l))
traps_disabled (all ∷ ts) s =
    let (m, l) = traps_disabled ts (record { mac = false; link = false }) in
    (ground (arith, m), ground (arith, l))

-- commands that leave the traps alone
unfoldable LeavesTraps : List Command → Type 0
unfolding traps_after
LeavesTraps commands = (s : Traps) → traps_after commands s ≡ s

then_leaves : (xs ys : List Command) → LeavesTraps xs → LeavesTraps ys → LeavesTraps (xs ++ ys)
unfolding LeavesTraps
then_leaves xs ys h k = λ s. rw (traps-append xs ys s, h s, k s) refl

map_leaves {ℓ} :
    {A : Type ℓ} (f : A → Command) (xs : List A)
    → ((x : A) (s : Traps) → obey_trap (f x) s ≡ s)
    → LeavesTraps (map f xs)
unfolding LeavesTraps traps_after
map_leaves f [] h = λ s. refl
map_leaves f (x ∷ xs) h = λ s. ap (traps_after (map f xs)) (h x s) ∙ map_leaves f xs h s

updates_leave : (cs : List SnmpCommunity) → LeavesTraps (each update_commands cs)
unfolding LeavesTraps traps_after each
updates_leave [] = λ s. refl
updates_leave (c ∷ cs) = λ s. updates_leave cs s

-- what is sent before the traps
abbrev others : SnmpStateDiff → List Command
others d =
    map no_community d.communities_to_remove
    ++ each update_commands d.communities_to_update
    ++ map community_command d.communities_to_add
    ++ map no_host d.trap_receivers_to_remove
    ++ map host_command d.trap_receivers_to_add

others_leave : (d : SnmpStateDiff) → LeavesTraps (others d)
others_leave d =
    then_leaves _ (map host_command d.trap_receivers_to_add)
      (then_leaves _ (map no_host d.trap_receivers_to_remove)
        (then_leaves _ (map community_command d.communities_to_add)
          (then_leaves (map no_community d.communities_to_remove)
            (each update_commands d.communities_to_update)
            (map_leaves no_community d.communities_to_remove (λ x s. refl))
            (updates_leave d.communities_to_update))
          (map_leaves community_command d.communities_to_add (λ x s. refl)))
        (map_leaves no_host d.trap_receivers_to_remove (λ x s. refl)))
      (map_leaves host_command d.trap_receivers_to_add (λ x s. refl))

pub snmp_diff_traps :
    (d : SnmpStateDiff) (s : Traps)
    → ((traps_after (snmp_diff_commands d) s).mac ≡ (
        (s.mac || listed d.traps_to_enable mac_notify)
        && not (listed d.traps_to_disable mac_notify)))
      × ((traps_after (snmp_diff_commands d) s).link ≡ (
          (s.link || listed d.traps_to_enable link_change)
          && not (listed d.traps_to_disable link_change)))
unfolding snmp_diff_commands LeavesTraps traps_after
snmp_diff_traps d s =
    let sent = others d in
    let on = each enable_traps d.traps_to_enable in
    let off = each disable_traps d.traps_to_disable in
    let (m, l) = traps_enabled d.traps_to_enable s in
    let (m', l') = traps_disabled d.traps_to_disable (traps_after on s) in
    rw
      (
        traps-append (sent ++ on ++ off) (exit ∷ []) s,
        traps-append (sent ++ on) off s,
        traps-append sent on s,
        others_leave d s,
      )
      (rw (m', m) refl, rw (l', l) refl)
