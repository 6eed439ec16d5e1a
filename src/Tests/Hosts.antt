-- ===== src/Tests/Hosts.antt =====
-- Jump hosts and allowed hosts: two host texts, and a switch whose community lists `auto`.
use switch_configurator.Prelude.{
  ◌||◌, ◌++◌, ℕ, Bool, any, contains, ◌↔◌, true, false, ◌≡◌, refl, none, some, [], ◌∷◌, Text, codes,
  text_eq, is_empty, ◌≤◌, arith, unwrap_or,
}
use switch_configurator.Prelude.Str.{split, split_once, rsplit_once}
use switch_configurator.Prelude.Decimal.{to_string, parse_digits, parse_unsigned}
use switch_configurator.Models.Snmp.{
  AllowedHost, network, SnmpReadsMode, snmp_reads_mode_eq, allowed_host_eq,
}
use switch_configurator.Models.SwitchConfig.{SwitchConfig, JumpHost, ResolvedJumpHost}
use switch_configurator.Config.Result.{Result, ok, err, unreadable, empty_hostname, invalid_port}
use switch_configurator.AllowedHosts.{
  replace_auto, needs_resolution, resolve_hosts, resolve_auto_hosts,
}
use switch_configurator.AllowedHosts.Resolved.{
  listed_hosts, own_hosts, is_open, resolve_auto_hosts_settles, resolve_auto_hosts_fails,
}
use switch_configurator.AllowedHosts.Fortios.{
  parse_ipv4, mask_prefix, count_ones, parse_octet, print_ipv4, netmask, network_text,
  host_to_fortios, host_from_fortios,
}
use switch_configurator.AllowedHosts.Masks.{fortios_round_trip}
use switch_configurator.JumpHosts.{parse_host_string, resolve_jump_host}
use switch_configurator.JumpHosts.Parsed.{
  user_text, port_text, read_parts, parse_host_string-parts, resolve_jump_host-bounds,
}
use switch_configurator.Tests.Data.{community, monitoring, wanted}

abbrev local : Text
local = codes "192.0.2.7"

abbrev found : Text → Result Text
found target = ok local

abbrev no_route : Text → Result Text
no_route target = err (unreadable target)

abbrev watched : SwitchConfig
watched = record wanted {
  snmp = some record monitoring {
    communities =
        record (community (codes "public") none) {
          allowed_hosts = network (codes "192.0.2.1") ∷ AllowedHost.auto ∷ [];
        }
        ∷ [];
    reads =
        some
          record { mode = SnmpReadsMode.auto; community = some (community (codes "reads") none) };
  };
}

abbrev watched_resolved : SwitchConfig
watched_resolved = record watched { snmp = resolve_hosts (network local) watched.snmp }

resolved_reads :
    watched_resolved.snmp
    ≡ some record monitoring {
      communities =
          record (community (codes "public") none) {
            allowed_hosts = network (codes "192.0.2.1") ∷ network local ∷ [];
          }
          ∷ [];
      reads = some record {
        mode = SnmpReadsMode.auto;
        community =
            some record (community (codes "reads") none) { allowed_hosts = network local ∷ [] };
      };
    }
unfolding resolve_hosts replace_auto snmp_reads_mode_eq allowed_host_eq
resolved_reads = refl

resolution : resolve_auto_hosts found watched ≡ ok watched_resolved
unfolding resolve_auto_hosts needs_resolution any contains allowed_host_eq
resolution = refl

no_resolution :
    resolve_auto_hosts no_route watched ≡ err (unreadable (unwrap_or watched.management_ip []))
unfolding resolve_auto_hosts needs_resolution any contains allowed_host_eq
no_resolution = refl

resolve_auto_hosts_settles_example :
    (contains (listed_hosts watched_resolved.snmp) AllowedHost.auto ≡ false)
    × (is_open (own_hosts watched_resolved.snmp) ≡ false)
    × (resolve_auto_hosts no_route watched_resolved ≡ ok watched_resolved)
resolve_auto_hosts_settles_example = resolve_auto_hosts_settles found no_route watched resolution

resolve_auto_hosts_fails_example :
    resolve_auto_hosts no_route watched ≡ err (unreadable (unwrap_or watched.management_ip []))
    ↔ ((contains (listed_hosts watched.snmp) AllowedHost.auto || is_open (own_hosts watched.snmp))
        ≡ true)
      × (no_route (unwrap_or watched.management_ip [])
          ≡ err (unreadable (unwrap_or watched.management_ip [])))
resolve_auto_hosts_fails_example =
    resolve_auto_hosts_fails no_route watched (unreadable (unwrap_or watched.management_ip []))

-- an IPv6 address in front of the port, which the last colon separates
parse_host_string-parts_example :
    parse_host_string
      (user_text (some (codes "ops")) (port_text (codes "2001:db8::1") (some (codes "2222"))))
    ≡ read_parts (some (codes "ops")) (codes "2001:db8::1") (some (codes "2222"))
parse_host_string-parts_example =
    parse_host_string-parts (some (codes "ops")) (codes "2001:db8::1") (some (codes "2222"))
      (refl, (refl, (refl, tt))) (refl, (refl, (refl, (refl, tt))))

parsed :
    (parse_host_string (codes "ops@2001:db8::1:2222")
      ≡ ok (some (codes "ops"), codes "2001:db8::1", some 2222))
    × (parse_host_string (codes "ops@:2222") ≡ err empty_hostname)
    × (parse_host_string (codes "gate:65536") ≡ err (invalid_port (codes "65536")))
unfolding parse_host_string rsplit_once split_once parse_unsigned
parsed = (refl, refl, refl)

abbrev gate : JumpHost
gate = record {
  host = codes "gate:2222";
  username = none;
  port = some 22;
  ssh_key_path = none;
  password = none;
}

abbrev gate_resolved : ResolvedJumpHost
gate_resolved = record {
  hostname = codes "gate";
  port = 22;
  username = codes "admin";
  ssh_key_path = none;
  password = none;
}

gate_resolution : resolve_jump_host none gate (codes "admin") ≡ ok gate_resolved
unfolding resolve_jump_host parse_host_string rsplit_once split_once parse_unsigned
gate_resolution = refl

resolve_jump_host-bounds_example :
    (is_empty gate_resolved.hostname ≡ false) × (gate_resolved.port ≤ 65535)
resolve_jump_host-bounds_example =
    resolve_jump_host-bounds none gate (codes "admin") (omega arith) gate_resolution

-- 192.0.2.0/24
abbrev documentation : ℕ
documentation = 3221225984

abbrev no_ipv6 : Text → Bool
no_ipv6 s = false

fortios_round_trip_example :
    (host_to_fortios no_ipv6 (network (print_ipv4 documentation ++ b'/' ∷ to_string 24))
      ≡ ok (print_ipv4 documentation, print_ipv4 (netmask 24)))
    × (host_from_fortios (print_ipv4 documentation) (print_ipv4 (netmask 24))
        ≡ some (network (network_text documentation 24)))
fortios_round_trip_example = fortios_round_trip no_ipv6 documentation 24 (omega arith) (omega arith)

printed :
    (print_ipv4 documentation ≡ codes "192.0.2.0")
    × (print_ipv4 (netmask 24) ≡ codes "255.255.255.0")
    × (host_from_fortios (codes "192.0.2.0") (codes "255.0.255.0") ≡ none)
unfolding print_ipv4 netmask to_string host_from_fortios parse_ipv4 mask_prefix count_ones
    parse_octet parse_digits split
printed = (refl, refl, refl)
