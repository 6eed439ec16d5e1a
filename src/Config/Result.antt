-- ===== src/Config/Result.antt =====
-- `anyhow::Result`. An error keeps what its message names; the wording is not modelled. A function
-- that changes a switch in place returns the new switch.
use switch_configurator.Prelude.{ℕ, List, Text, ◌≡◌, refl, Bool, true, false, if◌then◌else◌}

pub data ConfigError : Type 0 where
  no_numeric_suffix bad_number empty_credential bad_credential_id empty_secret unsafe_secret :
      Text → ConfigError
  prefix_mismatch mirror_destination_range unknown_untagged_name unknown_tagged_name :
      Text → Text → ConfigError
  destination_in_ports : Text → Text → ConfigError
  reversed_range : ℕ → ℕ → ConfigError
  missing_fields : List Text → ConfigError
  structural reads_unsupported hosts_unsupported no_vlans no_configs index_out_of_bounds :
      ConfigError
  ambiguous_vlan_name : Text → ℕ → ℕ → ConfigError
  vlan_name_too_long : ℕ → Text → ℕ → ConfigError
  vlan_name_like_range : ℕ → Text → ConfigError
  reference_errors : Text → ConfigError
  duplicate_vlan vlan_out_of_range : ℕ → ConfigError
  duplicate_port : Text → ConfigError
  undefined_vlan undefined_tagged_vlan : Text → ℕ → ConfigError
  priority_reserved : Text → ℕ → ConfigError
  two_sources no_source unreadable disagrees invalid_port invalid_network ipv6_manager :
      Text → ConfigError
  empty_hostname unresolved_auto : ConfigError

pub data Result {ℓ} (A : Type ℓ) : Type ℓ where
  err : ConfigError → Result A
  ok : A → Result A

infixl 5 ◌>>=◌
abbrev pub ◌>>=◌ {ℓ κ} : {A : Type ℓ} {B : Type κ} → Result A → (A → Result B) → Result B
err problem >>= next = err problem
ok value >>= next = next value

abbrev pub ensure : Bool → ConfigError → Result (Unit {0})
ensure test problem = if test then ok tt else err problem

pub >>=-eq_ok {ℓ κ} :
    {A : Type ℓ} {B : Type κ} (first : Result A) (next : A → Result B) {b : B}
    → (first >>= next) ≡ ok b
    → (value : A) × (first ≡ ok value) × (next value ≡ ok b)
>>=-eq_ok (err problem) next h = cc
>>=-eq_ok (ok value) next h = (value, refl, h)

infixl 5 ◌>>◌
abbrev pub ◌>>◌ {ℓ} : {B : Type ℓ} → Result (Unit {0}) → Result B → Result B
first >> second = first >>= λ _. second

pub ensure-eq_ok :
    (test : Bool) (problem : ConfigError) {u : Unit {0}} → ensure test problem ≡ ok u → test ≡ true
ensure-eq_ok true problem h = refl
ensure-eq_ok false problem h = cc

pub ok_inj {ℓ} : {A : Type ℓ} {a b : A} → ok a ≡ ok b → a ≡ b
ok_inj h = cc
