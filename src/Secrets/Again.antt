-- ===== src/Secrets/Again.antt =====
-- Resolving the secrets of an SNMP configuration a second time.
use switch_configurator.Prelude.{◌≡◌, refl, subst, Option, none, some, List, Text, text_eq}
use switch_configurator.Models.Snmp.{SnmpConfig, SnmpReads}
use switch_configurator.Config.Result.{ok, ◌>>=◌, >>=-eq_ok, ok_inj}
use switch_configurator.Secrets.{
  Files, SecretContext, resolve_list, resolve_own, resolve_reads, resolve_snmp,
}
use switch_configurator.Secrets.Settled.{
  SettledList, SettledOwn, Grows, list_again, list-Grows, resolve_list-Settled, own_again,
  resolve_own-Settled,
}

module _ (files : Files) (ctx : SecretContext) where
  abbrev pub SettledReads : List Text → Option SnmpReads → Type 0
  SettledReads registry none = Unit
  SettledReads registry (some r) = SettledOwn files ctx registry r.mode r.community

  reads_again :
      (registry : List Text) (o : Option SnmpReads)
      → SettledReads registry o
      → resolve_reads files ctx o registry ≡ ok (o, registry)
  unfolding resolve_reads
  reads_again registry none h = refl
  reads_again registry (some r) h = rw (own_again files ctx registry r.mode r.community h) refl

  resolve_reads-Settled :
      (o : Option SnmpReads) (registry : List Text) {x : Option SnmpReads × List Text}
      → resolve_reads files ctx o registry ≡ ok x
      → SettledReads x.1 x.0 × Grows files ctx registry x.1
  unfolding resolve_reads
  resolve_reads-Settled none registry h =
      subst
        (λ (x : Option SnmpReads × List Text). SettledReads x.1 x.0 × Grows files ctx registry x.1)
        (ok_inj h) (tt, λ v k. k)
  resolve_reads-Settled (some r) registry h =
      let (y, hy, h') =
        >>=-eq_ok (resolve_own files ctx r.mode r.community registry)
          (λ y. ok (some (record r { community = y.0 }), y.1)) h in
      subst
        (λ (x : Option SnmpReads × List Text). SettledReads x.1 x.0 × Grows files ctx registry x.1)
        (ok_inj h') (resolve_own-Settled files ctx r.mode r.community registry hy)

  -- What the code makes of an SNMP configuration: each of its communities that has a reference, and the
  -- service's own where reads are on, has the value that is read for it, which is not empty, has no quote and no control character, and stands in the
  -- registry of the values to mask; and no value has left the registry.
  pub resolve_snmp-Settled :
      (snmp : SnmpConfig) (registry : List Text) {x : SnmpConfig × List Text}
      → resolve_snmp files ctx snmp registry ≡ ok x
      → SettledList files ctx x.1 1 x.0.communities
        × SettledReads x.1 x.0.reads
        × Grows files ctx registry x.1
  unfolding resolve_snmp
  resolve_snmp-Settled snmp registry h =
      let (cs, hc, h₁) =
        >>=-eq_ok (resolve_list files ctx 1 snmp.communities registry)
          (λ cs. resolve_reads files ctx snmp.reads cs.1 >>= λ r.
            ok (record snmp { communities = cs.0; reads = r.0 }, r.1))
          h in
      let (r, hr, h₂) =
        >>=-eq_ok (resolve_reads files ctx snmp.reads cs.1)
          (λ r. ok (record snmp { communities = cs.0; reads = r.0 }, r.1)) h₁ in
      let (settled, grows) = resolve_list-Settled files ctx 1 snmp.communities registry hc in
      let (settled', grows') = resolve_reads-Settled snmp.reads cs.1 hr in
      subst
        (λ (x : SnmpConfig × List Text).
          SettledList files ctx x.1 1 x.0.communities
          × SettledReads x.1 x.0.reads
          × Grows files ctx registry x.1)
        (ok_inj h₂)
        (list-Grows files ctx cs.1 r.1 1 cs.0 grows' settled, settled', λ v k. grows' v (grows v k))

  -- Resolving the secrets of an SNMP configuration is idempotent: if it succeeds, then its result, with the
  -- same files and context and the registry that it left, is resolved to itself and registers nothing new.
  pub resolve_snmp_idempotent :
      (snmp : SnmpConfig) (registry : List Text) {x : SnmpConfig × List Text}
      → resolve_snmp files ctx snmp registry ≡ ok x
      → resolve_snmp files ctx x.0 x.1 ≡ ok x
  unfolding resolve_snmp
  resolve_snmp_idempotent snmp registry {x} h =
      let (settled, settled', _) = resolve_snmp-Settled snmp registry h in
      rw (list_again files ctx x.1 1 x.0.communities settled, reads_again x.1 x.0.reads settled')
        refl
