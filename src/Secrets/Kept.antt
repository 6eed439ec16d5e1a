-- ===== src/Secrets/Kept.antt =====
-- What the resolution of secrets makes of each community that is given.
use switch_configurator.Prelude.{
  ℕ, suc, ◌≡◌, refl, ap, sym, subst, true, ◌||◌, ◌==◌, ==_refl, ==_iff, Option, none, some, List,
  [], ◌∷◌, ◌++◌, Text, codes, text_eq, is_empty, arith, Pairwise,
}
use switch_configurator.Prelude.Decimal.{to_string}
use switch_configurator.Models.Snmp.{SnmpConfig, SnmpCommunity, SnmpReads, SnmpReadsMode}
use switch_configurator.Config.Result.{ok, ◌>>=◌, >>=-eq_ok, ok_inj}
use switch_configurator.Secrets.{
  Files, SecretContext, secret_of, use_secret, register_secret, resolve_community, resolve_list,
  resolve_own, resolve_reads, resolve_snmp,
}
use switch_configurator.Secrets.Settled.{SettledList, Grows}
use switch_configurator.Secrets.Again.{SettledReads, resolve_snmp-Settled}

-- The second community is the first one, with the name filled in where it was empty.
abbrev pub IsNamed : SnmpCommunity → SnmpCommunity → Type 0
IsNamed c c' = (c' ≡ record c { name = c'.name }) × ((is_empty c.name || c'.name == c.name) ≡ true)

-- The service's own community is looked at only where reads are on.
abbrev pub OwnNamed : SnmpReadsMode → Option SnmpCommunity → Option SnmpCommunity → Type 0
OwnNamed SnmpReadsMode.off o o' = o' ≡ o
OwnNamed SnmpReadsMode.auto none o' = o' ≡ none
OwnNamed SnmpReadsMode.auto (some c) none = ⊥
OwnNamed SnmpReadsMode.auto (some c) (some c') = IsNamed c c'

abbrev pub ReadsNamed : Option SnmpReads → Option SnmpReads → Type 0
ReadsNamed none reads' = reads' ≡ none
ReadsNamed (some r) none = ⊥
ReadsNamed (some r) (some r') = (r'.mode ≡ r.mode) × OwnNamed r.mode r.community r'.community

module _ (files : Files) (ctx : SecretContext) where
  resolve_community-IsNamed :
      (label : Text) (c : SnmpCommunity) (registry : List Text) {x : SnmpCommunity × List Text}
      → resolve_community files ctx label c registry ≡ ok x
      → IsNamed c x.0
  unfolding resolve_community use_secret
  resolve_community-IsNamed label c registry {x} h =
      let (o, _, h') =
        >>=-eq_ok (secret_of files ctx label c.name_file c.name_credential)
          (use_secret label c registry) h in
      go o h'
    where
      go : (o : Option Text) → use_secret label c registry o ≡ ok x → IsNamed c x.0
      go none h =
          subst (λ (x : SnmpCommunity × List Text). IsNamed c x.0) (ok_inj h)
            (refl, ground (arith, ==_refl c.name))
      go (some value) h =
          subst (λ (x : SnmpCommunity × List Text). IsNamed c x.0)
            {x = (record c { name = value }, register_secret value registry)} {y = x} (ground arith)
            (refl, ground (arith, h, ==_iff c.name value, ==_iff value c.name))

  resolve_list-IsNamed :
      (i : ℕ) (cs : List SnmpCommunity) (registry : List Text) {x : List SnmpCommunity × List Text}
      → resolve_list files ctx i cs registry ≡ ok x
      → Pairwise IsNamed cs x.0
  unfolding resolve_list
  resolve_list-IsNamed i [] registry h =
      subst (λ (x : List SnmpCommunity × List Text). Pairwise IsNamed [] x.0) (ok_inj h) tt
  resolve_list-IsNamed i (c ∷ cs) registry h =
      let label = codes "SNMP community #" ++ to_string i in
      let (first, hf, h₁) =
        >>=-eq_ok (resolve_community files ctx label c registry)
          (λ first.
            resolve_list files ctx (suc i) cs first.1 >>= λ rest. ok (first.0 ∷ rest.0, rest.1))
          h in
      let (rest, hr, h₂) =
        >>=-eq_ok (resolve_list files ctx (suc i) cs first.1)
          (λ rest. ok (first.0 ∷ rest.0, rest.1)) h₁ in
      subst (λ (x : List SnmpCommunity × List Text). Pairwise IsNamed (c ∷ cs) x.0) (ok_inj h₂)
        (resolve_community-IsNamed label c registry hf, resolve_list-IsNamed (suc i) cs first.1 hr)

  resolve_own-OwnNamed :
      (mode : SnmpReadsMode) (o : Option SnmpCommunity) (registry : List Text)
      {x : Option SnmpCommunity × List Text}
      → resolve_own files ctx mode o registry ≡ ok x
      → OwnNamed mode o x.0
  unfolding resolve_own
  resolve_own-OwnNamed SnmpReadsMode.off none registry h = ap (λ y. y.0) (sym (ok_inj h))
  resolve_own-OwnNamed SnmpReadsMode.off (some c) registry h = ap (λ y. y.0) (sym (ok_inj h))
  resolve_own-OwnNamed SnmpReadsMode.auto none registry h = ap (λ y. y.0) (sym (ok_inj h))
  resolve_own-OwnNamed SnmpReadsMode.auto (some c) registry h =
      let (y, hy, h') =
        >>=-eq_ok (resolve_community files ctx (codes "snmp.reads.community") c registry)
          (λ y. ok (some y.0, y.1)) h in
      subst (λ (x : Option SnmpCommunity × List Text). OwnNamed SnmpReadsMode.auto (some c) x.0)
        (ok_inj h') (resolve_community-IsNamed (codes "snmp.reads.community") c registry hy)

  resolve_reads-ReadsNamed :
      (o : Option SnmpReads) (registry : List Text) {x : Option SnmpReads × List Text}
      → resolve_reads files ctx o registry ≡ ok x
      → ReadsNamed o x.0
  unfolding resolve_reads
  resolve_reads-ReadsNamed none registry h = ap (λ y. y.0) (sym (ok_inj h))
  resolve_reads-ReadsNamed (some r) registry h =
      let (y, hy, h') =
        >>=-eq_ok (resolve_own files ctx r.mode r.community registry)
          (λ y. ok (some (record r { community = y.0 }), y.1)) h in
      subst (λ (x : Option SnmpReads × List Text). ReadsNamed (some r) x.0) (ok_inj h')
        (refl, resolve_own-OwnNamed r.mode r.community registry hy)

  -- What a successful resolution makes of an SNMP configuration. Its communities stay in their number and
  -- order and keep everything but an empty name; the service's own community does, too, and is left
  -- alone where reads are off; receivers and traps stay. Each of the communities that has a reference,
  -- and the service's own where reads are on, has the value that is read for it as its name, which is not
  -- empty, has no quote and no control character, and stands in the registry of the values to mask. No
  -- value leaves the registry.
  pub resolve_snmp-IsNamed :
      (snmp : SnmpConfig) (registry : List Text) {x : SnmpConfig × List Text}
      → resolve_snmp files ctx snmp registry ≡ ok x
      → Pairwise IsNamed snmp.communities x.0.communities
        × ReadsNamed snmp.reads x.0.reads
        × (x.0.trap_receivers ≡ snmp.trap_receivers)
        × (x.0.enabled_traps ≡ snmp.enabled_traps)
        × SettledList files ctx x.1 1 x.0.communities
        × SettledReads files ctx x.1 x.0.reads
        × Grows files ctx registry x.1
  unfolding resolve_snmp
  resolve_snmp-IsNamed snmp registry {x} h =
      let (cs, hc, h₁) =
        >>=-eq_ok (resolve_list files ctx 1 snmp.communities registry)
          (λ cs. resolve_reads files ctx snmp.reads cs.1 >>= λ r.
            ok (record snmp { communities = cs.0; reads = r.0 }, r.1))
          h in
      let (r, hr, h₂) =
        >>=-eq_ok (resolve_reads files ctx snmp.reads cs.1)
          (λ r. ok (record snmp { communities = cs.0; reads = r.0 }, r.1)) h₁ in
      let same : (record snmp { communities = cs.0; reads = r.0 }, r.1) ≡ x = ok_inj h₂ in
      let (settled, settled', grows) = resolve_snmp-Settled files ctx snmp registry h in
      (
        subst (λ (x : SnmpConfig × List Text). Pairwise IsNamed snmp.communities x.0.communities)
            same (resolve_list-IsNamed 1 snmp.communities registry hc),
        subst (λ (x : SnmpConfig × List Text). ReadsNamed snmp.reads x.0.reads) same
            (resolve_reads-ReadsNamed snmp.reads cs.1 hr),
        ap (λ y. y.0.trap_receivers) (sym same),
        ap (λ y. y.0.enabled_traps) (sym same),
        settled,
        settled',
        grows,
      )
