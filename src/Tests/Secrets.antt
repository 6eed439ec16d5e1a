-- ===== src/Tests/Secrets.antt =====
-- The theorems on secrets, for a community whose value stands in a file.
use switch_configurator.Prelude.Str.{trim_end_by}
use switch_configurator.Prelude.{
  Pairwise, contains, any, ◌≡◌, refl, none, some, List, [], ◌∷◌, ◌++◌, Text, codes, text_eq,
}
use switch_configurator.Models.Snmp.{SnmpConfig}
use switch_configurator.Config.Result.{ok}
use switch_configurator.Secrets.{
  register_secret, resolve_reads, use_secret, read_secret_file, secret_of, resolve_community,
  resolve_list, Files, SecretContext, resolve_snmp,
}
use switch_configurator.Secrets.Settled.{SettledList, Grows}
use switch_configurator.Secrets.Again.{SettledReads, resolve_snmp_idempotent}
use switch_configurator.Secrets.Kept.{IsNamed, ReadsNamed, resolve_snmp-IsNamed}
use switch_configurator.Tests.Data.{monitoring, community}

-- one file, with a line end behind the value
abbrev files : Files
files path = some (codes "s3cret" ++ 10 ∷ [])

abbrev context : SecretContext
context = record { credentials_dir = none }

abbrev referring : SnmpConfig
referring = record monitoring { communities = community [] (some (codes "/run/secret")) ∷ [] }

abbrev resolved : SnmpConfig × List Text
resolved = (
  record monitoring { communities = community (codes "s3cret") (some (codes "/run/secret")) ∷ [] },
  codes "s3cret" ∷ [],
)

referring_resolves : resolve_snmp files context referring [] ≡ ok resolved
unfolding resolve_snmp resolve_list resolve_community secret_of read_secret_file trim_end_by any
    use_secret resolve_reads register_secret contains
referring_resolves = refl

resolve_snmp-IsNamed_example :
    Pairwise IsNamed referring.communities resolved.0.communities
    × ReadsNamed referring.reads resolved.0.reads
    × (resolved.0.trap_receivers ≡ referring.trap_receivers)
    × (resolved.0.enabled_traps ≡ referring.enabled_traps)
    × SettledList files context resolved.1 1 resolved.0.communities
    × SettledReads files context resolved.1 resolved.0.reads
    × Grows files context [] resolved.1
resolve_snmp-IsNamed_example = resolve_snmp-IsNamed files context referring [] referring_resolves

resolve_snmp_idempotent_example : resolve_snmp files context resolved.0 resolved.1 ≡ ok resolved
resolve_snmp_idempotent_example =
    resolve_snmp_idempotent files context referring [] referring_resolves
