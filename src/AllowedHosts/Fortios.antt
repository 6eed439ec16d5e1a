-- ===== src/AllowedHosts/Fortios.antt =====
-- allowed_hosts.rs: `host_to_fortios` and `host_from_fortios`, the address and netmask of a network. An
-- IPv4 address is its number of 32 bits; whether a text is an IPv6 address is a parameter.
use switch_configurator.Prelude.{
  ℕ, zero, suc, ◌+◌, ◌-◌, ◌*◌, ◌/◌, ◌%◌, Bool, false, not, ◌&&◌, Option, none, some, List, [], ◌∷◌,
  ◌++◌, Text, if◌then◌else◌, ltb, nat_beq, map, ◌^◌,
}
use switch_configurator.Prelude.Str.{split, split_once}
use switch_configurator.Prelude.Decimal.{parse_digits, parse_u32, to_string}
use switch_configurator.Models.Snmp.{AllowedHost, network}
use switch_configurator.Config.Result.{
  Result, ok, err, ◌>>=◌, invalid_network, ipv6_manager, unresolved_auto,
}

abbrev leading_zero : Text → Bool
leading_zero [] = false
leading_zero (c ∷ []) = false
leading_zero (c ∷ d ∷ s) = nat_beq c b'0'

-- one number of an IPv4 address: decimal digits with no zero in front, at most 255
unfoldable pub parse_octet : Text → Option ℕ
parse_octet s = if leading_zero s then none else parse_digits 255 s

abbrev pub joined : List (Option ℕ) → Option ℕ
joined (some a ∷ some b ∷ some c ∷ some d ∷ []) = some (((a * 256 + b) * 256 + c) * 256 + d)
joined _ = none

-- `Ipv4Addr::from_str`
unfoldable pub parse_ipv4 : Text → Option ℕ
parse_ipv4 s = joined (map parse_octet (split b'.' s))

-- `Ipv4Addr::to_string`
unfoldable pub print_ipv4 : ℕ → Text
print_ipv4 ip =
    to_string (ip / 16777216)
    ++ b'.'
      ∷ (to_string (ip / 65536 % 256)
          ++ b'.' ∷ (to_string (ip / 256 % 256) ++ b'.' ∷ to_string (ip % 256)))

-- `u32::MAX << (32 - prefix)`, and 0 for the prefix 0
unfoldable pub netmask : ℕ → ℕ
netmask prefix = if nat_beq prefix 0 then 0 else (4294967295 * 2 ^ (32 - prefix)) % 2 ^ 32

-- `u32::count_ones`, of the lowest bits
unfoldable pub count_ones : ℕ → ℕ → ℕ
count_ones zero n = 0
count_ones (suc bits) n = n % 2 + count_ones bits (n / 2)

-- the prefix that a mask stands for, where it is one
abbrev prefix_of : ℕ → ℕ → Option ℕ
prefix_of mask prefix =
    if not (nat_beq prefix 0) && not (nat_beq mask ((4294967295 * 2 ^ (32 - prefix)) % 2 ^ 32))
    then none
    else if nat_beq prefix 0 && not (nat_beq mask 0)
    then none
    else some prefix

unfoldable pub mask_prefix : ℕ → Option ℕ
mask_prefix mask = prefix_of mask (count_ones 32 mask)

abbrev pub prefix_length : Text → Option Text → Result ℕ
prefix_length text none = ok 32
prefix_length text (some p) = elim (parse_u32 p) [
  | none ↦ err (invalid_network text)
  | some n ↦ if ltb 32 n then err (invalid_network text) else ok n
]

abbrev pub address : (Text → Bool) → Text → Text → Option ℕ → Result ℕ
address is_ipv6 text addr (some ip) = ok ip
address is_ipv6 text addr none =
    if is_ipv6 addr then err (ipv6_manager text) else err (invalid_network text)

abbrev pub split_prefix : Text → Option (Text × Text) → Text × Option Text
split_prefix text none = (text, none)
split_prefix text (some (addr, prefix)) = (addr, some prefix)

abbrev pub network_to_fortios : (Text → Bool) → Text → Text × Option Text → Result (Text × Text)
network_to_fortios is_ipv6 text (addr, prefix) = do
  ip ← address is_ipv6 text addr (parse_ipv4 addr)
  bits ← prefix_length text prefix
  ok (print_ipv4 ip, print_ipv4 (netmask bits))

unfoldable pub host_to_fortios : (Text → Bool) → AllowedHost → Result (Text × Text)
host_to_fortios is_ipv6 AllowedHost.auto = err unresolved_auto
host_to_fortios is_ipv6 (network text) =
    network_to_fortios is_ipv6 text (split_prefix text (split_once b'/' text))

abbrev pub network_text : ℕ → ℕ → Text
network_text ip prefix =
    if nat_beq prefix 32 then print_ipv4 ip else print_ipv4 ip ++ b'/' ∷ to_string prefix

abbrev pub parsed_host : Option ℕ → Option ℕ → Option AllowedHost
parsed_host none mask = none
parsed_host (some ip) none = none
parsed_host (some ip) (some mask) = elim (mask_prefix mask) [
  | none ↦ none
  | some prefix ↦ some (network (network_text ip prefix))
]

unfoldable pub host_from_fortios : Text → Text → Option AllowedHost
host_from_fortios ip mask = parsed_host (parse_ipv4 ip) (parse_ipv4 mask)
