-- ===== src/Secrets.antt =====
-- secrets.rs: where SNMP community strings come from, and the registry of the values to mask. What is
-- on disk is the function `Files`; the environment is the context.
pub mod Settled
pub mod Again
pub mod Kept
use switch_configurator.Prelude.{
  ℕ, suc, Bool, true, false, not, ◌&&◌, ◌||◌, Option, none, some, List, [], ◌∷◌, ◌++◌, Text, codes,
  ◌==◌, ◌!=◌, text_eq, nat_beq, is_empty, any, contains, if◌then◌else◌, nat_eq,
}
use switch_configurator.Prelude.Str.{is_control, trim_end_by}
use switch_configurator.Prelude.Decimal.{to_string}
use switch_configurator.Models.Snmp.{SnmpConfig, SnmpCommunity, SnmpReads, SnmpReadsMode}
use switch_configurator.Models.SwitchConfig.{SwitchConfig}
use switch_configurator.Config.Result.{
  Result, ok, err, ◌>>=◌, ◌>>◌, empty_secret, unsafe_secret, bad_credential_id, empty_credential,
  unreadable, disagrees,
}
use switch_configurator.Config.Snmp.{check_snmp_secret_sources}

-- `std::fs::read_to_string`; none where a file cannot be read
abbrev pub Files : Type 0
Files = Text → Option Text

pub record SecretContext : Type 0 where
  pub credentials_dir : Option Text

unfoldable pub validate_value : Text → Text → Result Text
validate_value raw label =
    let value = trim_end_by (λ c. nat_beq c 13 || nat_beq c 10) raw in
    if is_empty value
    then err (empty_secret label)
    else if any (λ c. nat_beq c b'"' || is_control c) value
    then err (unsafe_secret label)
    else ok value

unfoldable pub read_secret_file : Files → Text → Text → Result Text
unfolding validate_value
read_secret_file files path label = elim (files path) [
  | none ↦ err (unreadable label)
  | some raw ↦ validate_value raw label
]

-- `Path::join` of a directory and a plain name
unfoldable pub join : Text → Text → Text
join [] id = id
join (c ∷ []) id = if nat_beq c b'/' then c ∷ id else c ∷ b'/' ∷ id
join (c ∷ d ∷ dir) id = c ∷ join (d ∷ dir) id

unfoldable pub plain_name : Text → Bool
unfolding text_eq
plain_name id =
    not (is_empty id || id == codes "." || id == codes ".." || contains id b'/' || contains id 0)

unfoldable pub read_credential : Files → SecretContext → Text → Text → Result Text
unfolding read_secret_file
read_credential files ctx id label =
    if plain_name id
    then elim ctx.credentials_dir [
      | none ↦ err (empty_credential label)
      | some dir ↦ read_secret_file files (join dir id) label
    ]
    else err (bad_credential_id label)

-- what a community's reference stands for; none where it has no reference
unfoldable pub secret_of :
    Files → SecretContext → Text → (file credential : Option Text) → Result (Option Text)
secret_of files ctx label (some path) credential = do
  v ← read_secret_file files path label
  ok (some v)
secret_of files ctx label none (some id) = do v ← read_credential files ctx id label; ok (some v)
secret_of files ctx label none none = ok none

-- the registered values; a set
unfoldable pub register_secret : Text → List Text → List Text
register_secret value registry =
    if is_empty value || contains registry value then registry else value ∷ registry

unfoldable pub use_secret :
    Text → SnmpCommunity → List Text → Option Text → Result (SnmpCommunity × List Text)
use_secret label c registry none = ok (c, registry)
use_secret label c registry (some value) =
    if not (is_empty c.name) && c.name != value
    then err (disagrees label)
    else ok (record c { name = value }, register_secret value registry)

unfoldable pub resolve_community :
    Files → SecretContext → Text → SnmpCommunity → List Text → Result (SnmpCommunity × List Text)
resolve_community files ctx label c registry =
    secret_of files ctx label c.name_file c.name_credential >>= use_secret label c registry

unfoldable pub resolve_list :
    Files
    → SecretContext
    → ℕ
    → List SnmpCommunity
    → List Text
    → Result (List SnmpCommunity × List Text)
resolve_list files ctx i [] registry = ok ([], registry)
resolve_list files ctx i (c ∷ cs) registry = do
  first ← resolve_community files ctx (codes "SNMP community #" ++ to_string i) c registry
  rest ← resolve_list files ctx (suc i) cs first.1
  ok (first.0 ∷ rest.0, rest.1)

-- the service's own community, when it reads from the switch
unfoldable pub resolve_own :
    Files
    → SecretContext
    → SnmpReadsMode
    → Option SnmpCommunity
    → List Text
    → Result (Option SnmpCommunity × List Text)
resolve_own files ctx SnmpReadsMode.auto (some c) registry = do
  x ← resolve_community files ctx (codes "snmp.reads.community") c registry
  ok (some x.0, x.1)
resolve_own files ctx mode community registry = ok (community, registry)

unfoldable pub resolve_reads :
    Files → SecretContext → Option SnmpReads → List Text → Result (Option SnmpReads × List Text)
unfolding resolve_own
resolve_reads files ctx none registry = ok (none, registry)
resolve_reads files ctx (some r) registry = do
  x ← resolve_own files ctx r.mode r.community registry
  ok (some (record r { community = x.0 }), x.1)

unfoldable pub resolve_snmp :
    Files → SecretContext → SnmpConfig → List Text → Result (SnmpConfig × List Text)
resolve_snmp files ctx snmp registry = do
  cs ← resolve_list files ctx 1 snmp.communities registry
  r ← resolve_reads files ctx snmp.reads cs.1
  ok (record snmp { communities = cs.0; reads = r.0 }, r.1)

unfoldable pub resolve_switch :
    Files
    → SecretContext
    → SwitchConfig
    → List Text
    → Option SnmpConfig
    → Result (SwitchConfig × List Text)
unfolding resolve_snmp
resolve_switch files ctx switch registry none = ok (switch, registry)
resolve_switch files ctx switch registry (some snmp) = do
  x ← resolve_snmp files ctx snmp registry
  ok (record switch { snmp = some x.0 }, x.1)

-- An error ends the code between two communities: what it changed until then is not modelled.
unfoldable pub resolve_snmp_secrets :
    Files → SecretContext → SwitchConfig → List Text → Result (SwitchConfig × List Text)
unfolding resolve_switch
resolve_snmp_secrets files ctx switch registry = do
  check_snmp_secret_sources switch
  resolve_switch files ctx switch registry switch.snmp
