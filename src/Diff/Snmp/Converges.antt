-- ===== src/Diff/Snmp/Converges.antt =====
-- `diff_snmp` against a switch that carries it out.
use switch_configurator.Prelude.{
  Eq, subst, ◌≡◌, refl, ◌∙◌, ap, Bool, true, false, not, Option, none, some, List, [], ◌∷◌, arith,
  text_eq, ◌==◌, Text, map, contains, any, ==_refl, ==_iff, find_last,
}
use switch_configurator.Prelude.Str.{text_le, text_le_refl}
use switch_configurator.Prelude.Sort.{sort, find_last-sort, contains-sort}
use switch_configurator.Prelude.HashMap.{HashOrder}
use switch_configurator.Models.Snmp.{
  host_text, SnmpConfig, SnmpCommunity, TrapType, AllowedHost, trap_type_eq, snmp_access_eq,
}
use switch_configurator.Models.State.{SnmpStateDiff, has_snmp_changes}
use switch_configurator.Diff.Keyed.{
  added, removed, changed, entry, has, entry-added, contains-removed, entry-changed,
  none_of_entries,
}
use switch_configurator.Diff.Keyed.Settled.{
  Listed, carry_out, added-settled, kept-settled, changed-settled, removed_of_kept, entry-settled,
}
use switch_configurator.Diff.Snmp.{
  texts_eq, community_key, receiver_key, trap_key, same_community, same_hosts, by_name,
  compute_snmp_diff, snmp_difference,
}
use switch_configurator.Diff.Apply.{apply_snmp, no_snmp}

same_hosts_refl : (hosts : List AllowedHost) → same_hosts hosts hosts ≡ true
unfolding same_hosts
same_hosts_refl hosts = ==_refl (sort text_le (map host_text hosts))

same_community_refl : (c : SnmpCommunity) → same_community c c ≡ true
unfolding same_community
same_community_refl c = ground (arith, ==_refl c.access, same_hosts_refl c.allowed_hosts)

abbrev never {ℓ} : {K : Type ℓ} → K → Bool
never k = false

abbrev always : {V : Type 0} → V → V → Bool
always c d = true

module _ {K V : Type 0} ⦃e : Eq K⦄ (key : V → K) where
  entry-nil : (k : K) → entry key k [] ≡ none
  unfolding find_last
  entry-nil k = refl

  has-nil : (k : K) → has key [] k ≡ false
  unfolding any
  has-nil k = refl

  contains-map : (vs : List V) (k : K) → contains (map key vs) k ≡ has key vs k
  unfolding any contains
  contains-map [] k = refl
  contains-map (v ∷ vs) k = ground (arith, contains-map vs k)

  contains-nil : (k : K) → contains [] k ≡ false
  unfolding contains
  contains-nil k = refl

  -- from nothing, everything is added; to nothing, everything is removed
  Listed-from_nothing :
      (same : V → V → Bool) (wanted : List V) → Listed key same never [] wanted wanted [] []
  Listed-from_nothing same wanted = record {
    news_at = λ k. ground (arith, has-nil k);
    updates_at = λ k. ground (arith, entry-nil k);
    gone_at = λ k. ground (arith, contains-nil k, has-nil k);
  }

  Listed-to_nothing :
      (same : V → V → Bool) (current : List V)
      → Listed key same never current [] [] [] (map key current)
  Listed-to_nothing same current = record {
    news_at = λ k. ground (arith, entry-nil k);
    updates_at = λ k. ground (arith, entry-nil k);
    gone_at = λ k. ground (arith, contains-map current k, has-nil k);
  }

  Listed-unchanging :
      (order : HashOrder K) (current wanted : List V)
      → Listed key always never current wanted
          (added key order current wanted)
          []
          (removed key order current wanted)
  Listed-unchanging order current wanted = record {
    news_at = entry-added key order current wanted;
    updates_at = λ k. ground (arith, entry-nil k);
    gone_at = contains-removed key order current wanted;
  }

-- The three pairs of tables, and the lists that one difference has for them.
record SnmpListed (c d : SnmpConfig) (s : SnmpStateDiff) : Type 0 where
  communities :
      Listed community_key same_community never c.communities d.communities s.communities_to_add
        s.communities_to_update s.communities_to_remove
  receivers :
      Listed receiver_key always never c.trap_receivers d.trap_receivers s.trap_receivers_to_add []
        s.trap_receivers_to_remove
  traps :
      Listed trap_key always never c.enabled_traps d.enabled_traps s.traps_to_enable []
        s.traps_to_disable

near_by_name :
    (k : Text) (x y : SnmpCommunity)
    → (x.name == k) ≡ true
    → (y.name == k) ≡ true
    → by_name x y ≡ true
near_by_name k x y h h' = ground (arith, ==_iff x.name k, ==_iff y.name k, text_le_refl k)

compute-listed :
    (order : HashOrder Text) (traps : HashOrder TrapType) (c d : SnmpConfig)
    → SnmpListed c d (compute_snmp_diff order traps c d)
unfolding compute_snmp_diff
compute-listed order traps c d = record {
  communities = record {
    news_at = λ k.
        find_last-sort by_name (λ x. x.name == k) (near_by_name k)
          (added community_key order c.communities d.communities)
        ∙ entry-added community_key order c.communities d.communities k;
    updates_at = λ k.
        find_last-sort by_name (λ x. x.name == k) (near_by_name k)
          (changed community_key order same_community c.communities d.communities)
        ∙ entry-changed community_key order c.communities d.communities same_community k;
    gone_at = λ k.
        contains-sort text_le (removed community_key order c.communities d.communities) k
        ∙ contains-removed community_key order c.communities d.communities k;
  };
  receivers = Listed-unchanging receiver_key order c.trap_receivers d.trap_receivers;
  traps = Listed-unchanging trap_key traps c.enabled_traps d.enabled_traps;
}

abbrev applied : SnmpStateDiff → SnmpConfig → SnmpConfig
applied d c = record c {
  communities =
      carry_out community_key d.communities_to_remove d.communities_to_update d.communities_to_add
        c.communities;
  trap_receivers =
      carry_out receiver_key d.trap_receivers_to_remove [] d.trap_receivers_to_add c.trap_receivers;
  enabled_traps = carry_out trap_key d.traps_to_disable [] d.traps_to_enable c.enabled_traps;
}

module _ (order : HashOrder Text) (traps : HashOrder TrapType) {c d : SnmpConfig}
    {s : SnmpStateDiff} (l : SnmpListed c d s) where
  compute_settles : has_snmp_changes (compute_snmp_diff order traps (applied s c) d) ≡ false
  unfolding compute_snmp_diff has_snmp_changes sort
  compute_settles = rw (
    added-settled l.communities order,
    removed_of_kept community_key order _ _ (kept-settled l.communities order),
    changed-settled l.communities order same_community_refl,
    added-settled l.receivers order,
    removed_of_kept receiver_key order _ _ (kept-settled l.receivers order),
    added-settled l.traps traps,
    removed_of_kept trap_key traps _ _ (kept-settled l.traps traps),
  )

-- With nothing wanted, nothing is left.
module _ {K V : Type 0} ⦃e : Eq K⦄ {key : V → K} {same : V → V → Bool} where
  emptied :
      {current : List V}
      → (l : Listed key same never current [] [] [] (map key current))
      → carry_out key (map key current) [] [] current ≡ []
  emptied {current} l =
      none_of_entries key (carry_out key (map key current) [] [] current)
        λ k. go k (entry key k current) refl
    where
      go :
          (k : K) (o : Option V)
          → entry key k current ≡ o
          → entry key k (carry_out key (map key current) [] [] current) ≡ none
      go k none q = ground (arith, entry-settled l k, entry-nil key k, q)
      go k (some v) q = ground (arith, entry-settled l k, entry-nil key k, q)

map-trap_key : (ts : List TrapType) → map trap_key ts ≡ ts
map-trap_key [] = refl
map-trap_key (t ∷ ts) = ap (λ l. t ∷ l) (map-trap_key ts)

traps_emptied : (ts : List TrapType) → carry_out trap_key ts [] [] ts ≡ []
traps_emptied ts =
    subst (λ gone. carry_out trap_key gone [] [] ts ≡ []) (map-trap_key ts)
      (emptied (Listed-to_nothing trap_key always ts))

-- the difference lists nothing
abbrev pub quiet : Option SnmpStateDiff → Bool
quiet none = true
quiet (some d) = not (has_snmp_changes d)

module _ (order order' : HashOrder Text) (traps traps' : HashOrder TrapType) where
  -- Whatever SNMP configuration a switch has, or none, and whatever is wanted, or none: once the
  -- difference between them is carried out, the next difference lists no change, in whatever orders the
  -- tables are visited.
  pub snmp_settles :
      (current wanted : Option SnmpConfig)
      → quiet (
          snmp_difference order' traps'
            (apply_snmp (snmp_difference order traps current wanted) current)
            wanted)
        ≡ true
  unfolding snmp_difference
  snmp_settles none none = refl
  snmp_settles none (some d) = rw (
      compute_settles order' traps' {c = no_snmp} {d = d} (record {
        communities = Listed-from_nothing community_key same_community d.communities;
        receivers = Listed-from_nothing receiver_key always d.trap_receivers;
        traps = Listed-from_nothing trap_key always d.enabled_traps;
      }))
  snmp_settles (some c) none =
      rw
        (
          emptied (Listed-to_nothing community_key same_community c.communities),
          emptied (Listed-to_nothing receiver_key always c.trap_receivers),
          traps_emptied c.enabled_traps,
        )
        (unfold has_snmp_changes in refl)
  snmp_settles (some c) (some d) =
      rw (compute_settles order' traps' (compute-listed order traps c d))
