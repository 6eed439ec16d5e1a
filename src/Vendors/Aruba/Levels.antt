-- ===== src/Vendors/Aruba/Levels.antt =====
-- The levels of the command line: a command is only sent where the switch knows it, and the session is left
-- as it was entered.
use switch_configurator.Prelude.{
  some_inj, ap, ◌≡◌, refl, Option, none, some, List, [], ◌∷◌, ◌++◌, text_eq, nat_eq, map, arith,
}
use switch_configurator.Models.Snmp.{trap_type_eq}
use switch_configurator.Vendors.Aruba.{
  Command, configure_terminal, exit, enable, disable, vlan, no_vlan, untagged_vlan, no_tagged_vlan,
  tagged_vlan, vlan_name, port_name, interface, ip_dhcp, no_ip, no_name, ip_static, power,
  poe_by_class, no_power, mac_learned, mac_removed, no_mac_learned, no_mac_removed, speed_duplex,
  monitor, monitor_all, mirror_port, no_mirror, mirror, traps, no_traps, no_public, no_private,
  community, host, no_untagged_ports, no_tagged_ports, no_community, no_host, no_link_traps,
  no_management_vlan, management_vlan,
}
use switch_configurator.Vendors.Aruba.Generate.{each, configuring}

-- the exec level, configuration, and the contexts of a VLAN and of an interface
pub data Level : Type 0 where
  exec config in_vlan in_interface : Level

-- where a command leads, if it is known at a level; `exit` at the exec level would end the session
abbrev pub after_command : Level → Command → Option Level
after_command exec configure_terminal = some config
after_command exec _ = none
after_command config exit = some exec
after_command config (vlan n) = some in_vlan
after_command config (interface s) = some in_interface
after_command config (no_vlan n) = some config
after_command config (mirror_port s) = some config
after_command config (no_mirror s) = some config
after_command config (mirror s t) = some config
after_command config (traps t) = some config
after_command config (no_traps t) = some config
after_command config no_public = some config
after_command config no_private = some config
after_command config (community s a) = some config
after_command config (host h s) = some config
after_command config (no_community s) = some config
after_command config (no_host h) = some config
after_command config no_link_traps = some config
after_command config no_management_vlan = some config
after_command config (management_vlan n) = some config
after_command config _ = none
after_command in_vlan exit = some config
after_command in_vlan (vlan_name s) = some in_vlan
after_command in_vlan ip_dhcp = some in_vlan
after_command in_vlan no_ip = some in_vlan
after_command in_vlan (ip_static a m) = some in_vlan
after_command in_vlan (no_untagged_ports ps) = some in_vlan
after_command in_vlan (no_tagged_ports ps) = some in_vlan
after_command in_vlan _ = none
after_command in_interface exit = some config
after_command in_interface enable = some in_interface
after_command in_interface disable = some in_interface
after_command in_interface (untagged_vlan n) = some in_interface
after_command in_interface (no_tagged_vlan n) = some in_interface
after_command in_interface (tagged_vlan ns) = some in_interface
after_command in_interface (port_name s) = some in_interface
after_command in_interface no_name = some in_interface
after_command in_interface power = some in_interface
after_command in_interface poe_by_class = some in_interface
after_command in_interface no_power = some in_interface
after_command in_interface mac_learned = some in_interface
after_command in_interface mac_removed = some in_interface
after_command in_interface no_mac_learned = some in_interface
after_command in_interface no_mac_removed = some in_interface
after_command in_interface (speed_duplex s) = some in_interface
after_command in_interface monitor = some in_interface
after_command in_interface (monitor_all d s) = some in_interface
after_command in_interface _ = none

abbrev pub and_then : Option Level → (Level → Option Level) → Option Level
and_then none f = none
and_then (some l) f = f l

unfoldable pub after_commands : List Command → Level → Option Level
after_commands [] l = some l
after_commands (c ∷ cs) l = and_then (after_command l c) (after_commands cs)

pub after-append :
    (xs ys : List Command) (l m : Level)
    → after_commands xs l ≡ some m
    → after_commands (xs ++ ys) l ≡ after_commands ys m
unfolding after_commands
after-append [] ys l m h = ap (after_commands ys) (some_inj h)
after-append (x ∷ xs) ys l m h = then_after (after_command l x) (λ n. after-append xs ys n m) h
  where
    then_after :
        (o : Option Level)
        → ((n : Level)
            → after_commands xs n ≡ some m
            → after_commands (xs ++ ys) n ≡ after_commands ys m)
        → and_then o (after_commands xs) ≡ some m
        → and_then o (after_commands (xs ++ ys)) ≡ after_commands ys m
    then_after none f h = ground arith
    then_after (some n) f h = f n h

-- commands that stay at a level
unfoldable pub StaysAt : Level → List Command → Type 0
StaysAt l commands = after_commands commands l ≡ some l

pub stays-append :
    (l : Level) (xs ys : List Command) → StaysAt l xs → StaysAt l ys → StaysAt l (xs ++ ys)
unfolding StaysAt
stays-append l xs ys h k = rw (after-append xs ys l l h) k

pub stays-map {ℓ} :
    {A : Type ℓ} (l : Level) (f : A → Command) (xs : List A)
    → ((x : A) → after_command l (f x) ≡ some l)
    → StaysAt l (map f xs)
unfolding StaysAt after_commands
stays-map l f [] h = refl
stays-map l f (x ∷ xs) h = rw (h x) (stays-map l f xs h)

pub stays-each {ℓ} :
    {A : Type ℓ} (l : Level) (f : A → List Command) (xs : List A)
    → ((x : A) → StaysAt l (f x))
    → StaysAt l (each f xs)
unfolding StaysAt each after_commands
stays-each l f [] h = refl
stays-each l f (x ∷ xs) h = stays-append l (f x) (each f xs) (h x) (stays-each l f xs h)

pub stays-configuring : (xs : List Command) → StaysAt config xs → StaysAt exec (configuring xs)
unfolding StaysAt after_commands
stays-configuring xs h = rw (after-append xs (exit ∷ []) config config h) refl
