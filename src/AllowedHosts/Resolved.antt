-- ===== src/AllowedHosts/Resolved.antt =====
-- What `resolve_auto_hosts` of allowed_hosts.rs leaves in a switch's SNMP communities.
use switch_configurator.Prelude.{
  ◌++◌, contains-append, ==_refl, Bool, true, false, ◌&&◌, ◌||◌, ◌≡◌, refl, inl, inr, ◌↔◌, ap, sym,
  ◌∙◌, Option, none, some, List, [], ◌∷◌, Text, ◌==◌, ==_iff, contains, is_empty, any, map,
  unwrap_or, Bool-cases, arith,
}
use switch_configurator.Models.Snmp.{
  AllowedHost, network, SnmpCommunity, SnmpReads, SnmpReadsMode, SnmpConfig, allowed_host_eq,
  snmp_reads_mode_eq,
}
use switch_configurator.Models.SwitchConfig.{SwitchConfig}
use switch_configurator.Config.Result.{ConfigError, Result, ok, err, ◌>>=◌, >>=-eq_ok, ok_inj}
use switch_configurator.AllowedHosts.{
  unrestricted_community, resolve_reads_community, community_has_auto, has_auto, reads_default,
  reads_has_auto, needs_resolution, replace_auto, resolve_in_community, resolve_in_reads,
  resolve_hosts, resolve_auto_hosts,
}

network_is_not_auto : (s : Text) → (network s == AllowedHost.auto) ≡ false
network_is_not_auto s = elim (Bool-cases (network s == AllowedHost.auto)) [
  | inl same ↦ let path = (==_iff (network s) AllowedHost.auto).0 same in cc
  | inr other ↦ other
]

auto_is_auto : (AllowedHost.auto == AllowedHost.auto) ≡ true
auto_is_auto = ==_refl AllowedHost.auto

module _ (local : Text) where
  contains-replace_auto :
      (hosts : List AllowedHost)
      → contains (replace_auto (network local) hosts) AllowedHost.auto ≡ false
  unfolding replace_auto contains
  contains-replace_auto [] = refl
  contains-replace_auto (AllowedHost.auto ∷ hosts) =
      rw (auto_is_auto, network_is_not_auto local, contains-replace_auto hosts) refl
  contains-replace_auto (network s ∷ hosts) =
      rw (network_is_not_auto s, network_is_not_auto s, contains-replace_auto hosts) refl

  is_empty-replace_auto :
      (hosts : List AllowedHost) → is_empty (replace_auto (network local) hosts) ≡ is_empty hosts
  unfolding replace_auto
  is_empty-replace_auto [] = refl
  is_empty-replace_auto (h ∷ hosts) = refl

  communities_resolved :
      (cs : List SnmpCommunity)
      → any has_auto (map (resolve_in_community (network local)) cs) ≡ false
  unfolding any
  communities_resolved [] = refl
  communities_resolved (c ∷ cs) =
      ground (arith, contains-replace_auto c.allowed_hosts, communities_resolved cs)

  community_resolved :
      (used : Bool) (community : Option SnmpCommunity)
      → (community_has_auto (
            resolve_reads_community
              (network local)
              (used && unrestricted_community community)
              community)
          || used
            && unrestricted_community (
                resolve_reads_community
                  (network local)
                  (used && unrestricted_community community)
                  community))
        ≡ false
  community_resolved used none = ground arith
  community_resolved true (some c) = elim (Bool-cases (is_empty c.allowed_hosts)) [
    | inl none_listed ↦ rw none_listed (
        ground (
          arith,
          contains-replace_auto (network local ∷ []),
          is_empty-replace_auto (network local ∷ []),
        ))
    | inr listed ↦ rw listed (
        ground
          (arith, contains-replace_auto c.allowed_hosts, is_empty-replace_auto c.allowed_hosts))
  ]
  community_resolved false (some c) = ground (arith, contains-replace_auto c.allowed_hosts)

  reads_resolved :
      (reads : Option SnmpReads)
      → (reads_has_auto (resolve_in_reads (network local) reads)
          || reads_default (resolve_in_reads (network local) reads))
        ≡ false
  reads_resolved none = refl
  reads_resolved (some reads) =
      community_resolved (reads.mode == SnmpReadsMode.auto) reads.community

  hosts_resolved :
      (snmp : Option SnmpConfig) → needs_resolution (resolve_hosts (network local) snmp) ≡ false
  unfolding needs_resolution resolve_hosts
  hosts_resolved none = refl
  hosts_resolved (some snmp) =
      ground (arith, communities_resolved snmp.communities, reads_resolved snmp.reads)

nothing_left :
    (lookup : Text → Result Text) (switch : SwitchConfig) {resolved : SwitchConfig}
    → resolve_auto_hosts lookup switch ≡ ok resolved
    → needs_resolution resolved.snmp ≡ false
unfolding resolve_auto_hosts
nothing_left lookup switch {resolved} h = elim (Bool-cases (needs_resolution switch.snmp)) [
  | inr settled ↦ ap (λ s. needs_resolution s.snmp) (sym (ok_inj (rw settled at h))) ∙ settled
  | inl needed ↦
      let (local, _, e) =
        >>=-eq_ok (lookup (unwrap_or switch.management_ip []))
          (λ local. ok record switch { snmp = resolve_hosts (network local) switch.snmp })
          (rw needed at h) in
      ap (λ s. needs_resolution s.snmp) (sym (ok_inj e)) ∙ hosts_resolved local switch.snmp
]

ok_is_no_err : {A : Type 0} {a : A} {problem : ConfigError} → ¬ (ok a ≡ err problem)
ok_is_no_err h = cc

fails_first :
    {A B : Type 0} (first : Result A) (next : A → B) (problem : ConfigError)
    → (first >>= λ a. ok (next a)) ≡ err problem ↔ first ≡ err problem
fails_first (err e) next problem = (λ h. cc, λ h. cc)
fails_first (ok a) next problem = (λ h. cc, λ h. cc)

fails_iff :
    (lookup : Text → Result Text) (switch : SwitchConfig) (problem : ConfigError)
    → resolve_auto_hosts lookup switch ≡ err problem
      ↔ (needs_resolution switch.snmp ≡ true)
        × (lookup (unwrap_or switch.management_ip []) ≡ err problem)
unfolding resolve_auto_hosts
fails_iff lookup switch problem = elim (Bool-cases (needs_resolution switch.snmp)) [
  | inl needed ↦
      let found =
        fails_first (lookup (unwrap_or switch.management_ip []))
          (λ local. record switch { snmp = resolve_hosts (network local) switch.snmp }) problem in
      (λ h. (needed, found.0 (rw needed at h)), λ h. rw needed (found.1 h.1))
  | inr settled ↦ (λ h. absurd (ok_is_no_err (rw settled at h)), λ h. cc)
]

-- Every host that a switch lists, in its communities and in the service's own one.
abbrev pub community_hosts : Option SnmpCommunity → List AllowedHost
community_hosts none = []
community_hosts (some community) = community.allowed_hosts

abbrev pub reads_hosts : Option SnmpReads → List AllowedHost
reads_hosts none = []
reads_hosts (some reads) = community_hosts reads.community

unfoldable pub hosts_of_all : List SnmpCommunity → List AllowedHost
hosts_of_all [] = []
hosts_of_all (c ∷ cs) = c.allowed_hosts ++ hosts_of_all cs

abbrev pub listed_hosts : Option SnmpConfig → List AllowedHost
listed_hosts none = []
listed_hosts (some snmp) = hosts_of_all snmp.communities ++ reads_hosts snmp.reads

-- The hosts that the service's own community is restricted to; none where it is not used.
abbrev pub used_hosts : SnmpReadsMode → Option SnmpCommunity → Option (List AllowedHost)
used_hosts SnmpReadsMode.auto (some community) = some community.allowed_hosts
used_hosts SnmpReadsMode.auto none = none
used_hosts SnmpReadsMode.off community = none

abbrev pub used_reads_hosts : Option SnmpReads → Option (List AllowedHost)
used_reads_hosts none = none
used_reads_hosts (some reads) = used_hosts reads.mode reads.community

abbrev pub own_hosts : Option SnmpConfig → Option (List AllowedHost)
own_hosts none = none
own_hosts (some snmp) = used_reads_hosts snmp.reads

-- a list of hosts that restricts nothing
abbrev pub is_open : Option (List AllowedHost) → Bool
is_open none = false
is_open (some hosts) = is_empty hosts

any-hosts_of_all :
    (cs : List SnmpCommunity) → contains (hosts_of_all cs) AllowedHost.auto ≡ any has_auto cs
unfolding hosts_of_all any contains
any-hosts_of_all [] = refl
any-hosts_of_all (c ∷ cs) =
    rw (contains-append c.allowed_hosts (hosts_of_all cs) AllowedHost.auto, any-hosts_of_all cs)
      refl

own_lem :
    (reads : Option SnmpReads)
    → (reads_has_auto reads || reads_default reads)
      ≡ (contains (reads_hosts reads) AllowedHost.auto || is_open (used_reads_hosts reads))
unfolding contains snmp_reads_mode_eq
own_lem none = refl
own_lem (some reads) = go reads.mode reads.community
  where
    go :
        (mode : SnmpReadsMode) (community : Option SnmpCommunity)
        → (community_has_auto community
            || (mode == SnmpReadsMode.auto && unrestricted_community community))
          ≡ (contains (community_hosts community) AllowedHost.auto
              || is_open (used_hosts mode community))
    go SnmpReadsMode.auto none = refl
    go SnmpReadsMode.auto (some c) = refl
    go SnmpReadsMode.off none = refl
    go SnmpReadsMode.off (some c) = refl

needs_resolution_lem :
    (snmp : Option SnmpConfig)
    → needs_resolution snmp
      ≡ (contains (listed_hosts snmp) AllowedHost.auto || is_open (own_hosts snmp))
unfolding needs_resolution
needs_resolution_lem none = unfold contains in refl
needs_resolution_lem (some snmp) = ground (
  arith,
  any-hosts_of_all snmp.communities,
  own_lem snmp.reads,
  contains-append (hosts_of_all snmp.communities) (reads_hosts snmp.reads) AllowedHost.auto,
)

-- After a successful resolution `auto` is listed nowhere, neither in a community nor in the service's
-- own one; the service's own community, when it is used, is restricted to some host; and a second
-- resolution changes nothing, even where the address towards the switch can no longer be found.
pub resolve_auto_hosts_settles :
    (lookup again : Text → Result Text) (switch : SwitchConfig) {resolved : SwitchConfig}
    → resolve_auto_hosts lookup switch ≡ ok resolved
    → (contains (listed_hosts resolved.snmp) AllowedHost.auto ≡ false)
      × (is_open (own_hosts resolved.snmp) ≡ false)
      × (resolve_auto_hosts again resolved ≡ ok resolved)
unfolding resolve_auto_hosts
resolve_auto_hosts_settles lookup again switch {resolved} h =
    let settled = nothing_left lookup switch h in
    (
      ground (arith, settled, needs_resolution_lem resolved.snmp),
      ground (arith, settled, needs_resolution_lem resolved.snmp),
      rw settled refl,
    )

-- Resolution fails exactly where `auto` is listed in some community, the service's own included, or that
-- one is used and lists no host, and the address towards the switch cannot be found; the error is then
-- that of the search for the address.
pub resolve_auto_hosts_fails :
    (lookup : Text → Result Text) (switch : SwitchConfig) (problem : ConfigError)
    → resolve_auto_hosts lookup switch ≡ err problem
      ↔ ((contains (listed_hosts switch.snmp) AllowedHost.auto || is_open (own_hosts switch.snmp))
          ≡ true)
        × (lookup (unwrap_or switch.management_ip []) ≡ err problem)
resolve_auto_hosts_fails lookup switch problem =
    rw (sym (needs_resolution_lem switch.snmp)) (fails_iff lookup switch problem)
