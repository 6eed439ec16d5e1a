-- ===== src/AllowedHosts/Masks.antt =====
-- The networks of allowed_hosts.rs in the form of FortiOS, and back.
use switch_configurator.Prelude.{
  ℕ, zero, suc, ◌+◌, ◌*◌, ◌/◌, ◌%◌, ◌<◌, ◌≤◌, ◌≡◌, refl, Bool, true, false, ◌&&◌, Option, none,
  some, [], ◌∷◌, ◌++◌, Text, nat_beq, All, All-map, All-append, arith, Bool-cases, subst, inl, inr,
  ltb,
}
use switch_configurator.Prelude.Str.{split, split_whole, is_digit, split_once-append}
use switch_configurator.Prelude.Decimal.{
  print_fuel, parse_u32, to_string, print_fuel-All, parse_digits, parse_unsigned,
}
use switch_configurator.Models.Snmp.{network}
use switch_configurator.Config.Result.{ok}
use switch_configurator.AllowedHosts.Fortios.{
  parse_octet, parse_ipv4, print_ipv4, netmask, count_ones, mask_prefix, host_to_fortios,
  host_from_fortios, network_text, prefix_length, parsed_host,
}

all_below : (ℕ → Bool) → ℕ → Bool
all_below p zero = true
all_below p (suc n) = p n && all_below p n

the_last : (k n : ℕ) → nat_beq k n ≡ true → n ≡ k
the_last k n h = ground arith

all_below-at : (p : ℕ → Bool) (n k : ℕ) → all_below p n ≡ true → k < n → p k ≡ true
unfolding all_below
all_below-at p zero k h l = absurd (omega arith)
all_below-at p (suc n) k h l = elim (Bool-cases (nat_beq k n)) [
  | inl last ↦ subst (λ i. p i ≡ true) (the_last k n last) (ground arith)
  | inr before ↦ all_below-at p n k (ground arith) (ground arith)
]

abbrev is_value : Option ℕ → ℕ → Bool
is_value none k = false
is_value (some n) k = nat_beq n k

is_value_path : (o : Option ℕ) (k : ℕ) → is_value o k ≡ true → o ≡ some k
is_value_path none k h = cc
is_value_path (some n) k h = ground arith

octets : all_below (λ k. is_value (parse_octet (to_string k)) k) 256 ≡ true
unfolding all_below parse_octet to_string parse_digits
octets = refl

prefixes : all_below (λ k. is_value (mask_prefix (netmask k)) k) 33 ≡ true
unfolding all_below mask_prefix netmask count_ones
prefixes = refl

small_masks : all_below (λ k. ltb (netmask k) 4294967296) 33 ≡ true
unfolding all_below netmask
small_masks = refl

lengths : all_below (λ k. is_value (parse_u32 (to_string k)) k) 33 ≡ true
unfolding all_below to_string parse_unsigned
lengths = refl

octet_read : (k : ℕ) → k < 256 → parse_octet (to_string k) ≡ some k
octet_read k h =
    is_value_path _ k (all_below-at (λ k. is_value (parse_octet (to_string k)) k) 256 k octets h)

prefix_read : (k : ℕ) → k ≤ 32 → mask_prefix (netmask k) ≡ some k
prefix_read k h =
    is_value_path _ k
      (all_below-at (λ k. is_value (mask_prefix (netmask k)) k) 33 k prefixes (omega arith))

length_read : (k : ℕ) → k ≤ 32 → parse_u32 (to_string k) ≡ some k
length_read k h =
    is_value_path _ k
      (all_below-at (λ k. is_value (parse_u32 (to_string k)) k) 33 k lengths (omega arith))

netmask_bound : (k : ℕ) → k ≤ 32 → netmask k < 4294967296
netmask_bound k h =
    let small = all_below-at (λ k. ltb (netmask k) 4294967296) 33 k small_masks (omega arith) in
    ground arith

-- a text with a separator splits at the first one
split-append :
    (sep : ℕ) (s t : Text)
    → All (λ c. nat_beq c sep ≡ false) s
    → split sep (s ++ sep ∷ t) ≡ s ∷ split sep t
unfolding split
split-append sep [] t h = ground arith
split-append sep (c ∷ s) t (h, hs) = rw (h, split-append sep s t hs) refl

digits_without : (sep n : ℕ) → ltb sep 48 ≡ true → All (λ c. nat_beq c sep ≡ false) (to_string n)
unfolding to_string
digits_without sep n h =
    All-map (λ c. is_digit c ≡ true) (λ c. nat_beq c sep ≡ false) (λ c d. ground arith)
      (print_fuel (suc n) n) (print_fuel-All (suc n) n)

ipv4_number :
    (n : ℕ)
    → n < 4294967296
    → ((n / 16777216 * 256 + n / 65536 % 256) * 256 + n / 256 % 256) * 256 + n % 256 ≡ n
ipv4_number n h = omega arith

parse_ipv4-print_ipv4 : (n : ℕ) → n < 4294967296 → parse_ipv4 (print_ipv4 n) ≡ some n
unfolding parse_ipv4 print_ipv4
parse_ipv4-print_ipv4 n h =
    rw
      (
        split-append b'.' (to_string (n / 16777216)) _ (digits_without b'.' _ refl),
        split-append b'.' (to_string (n / 65536 % 256)) _ (digits_without b'.' _ refl),
        split-append b'.' (to_string (n / 256 % 256)) _ (digits_without b'.' _ refl),
        split_whole b'.' (to_string (n % 256)) (digits_without b'.' _ refl),
        octet_read (n / 16777216) (omega arith),
        octet_read (n / 65536 % 256) (omega arith),
        octet_read (n / 256 % 256) (omega arith),
        octet_read (n % 256) (omega arith),
        ipv4_number n h,
      )
      refl

abbrev SlashFree : Text → Type 0
SlashFree s = All (λ c. nat_beq c b'/' ≡ false) s

dotted : (s t : Text) → SlashFree s → SlashFree t → SlashFree (s ++ b'.' ∷ t)
dotted s t h k = All-append (λ c. nat_beq c b'/' ≡ false) s (b'.' ∷ t) h (refl, k)

slash_free : (n : ℕ) → SlashFree (print_ipv4 n)
unfolding print_ipv4
slash_free n = dotted (to_string (n / 16777216)) _ (digits_without b'/' _ refl) (
    dotted (to_string (n / 65536 % 256)) _ (digits_without b'/' _ refl) (
      dotted (to_string (n / 256 % 256)) _ (digits_without b'/' _ refl)
        (digits_without b'/' (n % 256) refl)))

module _ (is_ipv6 : Text → Bool) (ip prefix : ℕ) (address : ip < 4294967296)
    (short : prefix ≤ 32) where
  to_fortios :
      host_to_fortios is_ipv6 (network (print_ipv4 ip ++ b'/' ∷ to_string prefix))
      ≡ ok (print_ipv4 ip, print_ipv4 (netmask prefix))
  unfolding host_to_fortios
  to_fortios =
      rw
        (
          split_once-append b'/' (print_ipv4 ip) (to_string prefix) (slash_free ip),
          parse_ipv4-print_ipv4 ip address,
          prefix_length,
          length_read prefix short,
        )
        (ground arith)

  from_fortios :
      host_from_fortios (print_ipv4 ip) (print_ipv4 (netmask prefix))
      ≡ some (network (network_text ip prefix))
  unfolding host_from_fortios
  from_fortios =
      rw
        (
          parse_ipv4-print_ipv4 ip address,
          parse_ipv4-print_ipv4 (netmask prefix) (netmask_bound prefix short),
          parsed_host,
          prefix_read prefix short,
        )
        refl

-- An IPv4 network, written as an address, a slash and a prefix of at most 32 bits, is turned into its
-- address and netmask for FortiOS, and these are read back as the same network; that of one address,
-- with the prefix 32, is read back as the address alone. What counts as an IPv6 address does not matter.
pub fortios_round_trip :
    (is_ipv6 : Text → Bool) (ip prefix : ℕ)
    → ip < 4294967296
    → prefix ≤ 32
    → (host_to_fortios is_ipv6 (network (print_ipv4 ip ++ b'/' ∷ to_string prefix))
        ≡ ok (print_ipv4 ip, print_ipv4 (netmask prefix)))
      × (host_from_fortios (print_ipv4 ip) (print_ipv4 (netmask prefix))
          ≡ some (network (network_text ip prefix)))
fortios_round_trip is_ipv6 ip prefix address short =
    (to_fortios is_ipv6 ip prefix address short, from_fortios is_ipv6 ip prefix address short)
