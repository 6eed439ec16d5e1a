-- ===== src/Config/Merge/Wins.antt =====
-- Which config each part of a merged switch is taken from.
use switch_configurator.Prelude.{
  ◌==◌, filter, ℕ, ◌≡◌, refl, ◌∙◌, sym, Bool, true, Option, none, some, List, [], ◌∷◌, ◌++◌, Eq,
  any, find, or_option, is_some, if◌then◌else◌, arith, Text, text_eq, nat_eq, leb,
}
use switch_configurator.Prelude.HashMap.{HashMap, get, or_insert, get-or_insert}
use switch_configurator.Prelude.Sort.{filter-sort, IsSorted, sort-IsSorted}
use switch_configurator.Prelude.Str.{text_le, text_le_refl}
use switch_configurator.Models.SwitchConfig.{SwitchConfig}
use switch_configurator.Diff.Keyed.{at, has, entry, distinct}
use switch_configurator.Config.Merge.{
  ConfigWithMetadata, by_priority, insert_configs, note_sources, sources_of, merge_sorted,
  merge_single_switch, vlan_id, port_id_of, session_id_of,
}
use switch_configurator.Config.Merge.Table.{
  insert_items, into_values, entry-merged, distinct-merged,
}

module _ {ℓ} {A : Type ℓ} where
  is_some-find : (p : A → Bool) (xs : List A) → is_some (find p xs) ≡ any p xs
  unfolding find any
  is_some-find p [] = refl
  is_some-find p (x ∷ xs) = ground (arith, is_some-find p xs)

  find-append :
      (p : A → Bool) (xs ys : List A) → find p (xs ++ ys) ≡ or_option (find p xs) (find p ys)
  unfolding find
  find-append p [] ys = refl
  find-append p (x ∷ xs) ys = ground (arith, find-append p xs ys)

abbrev pub first_of {ℓ κ} : {A : Type ℓ} {B : Type κ} → Option (A × B) → Option A
first_of none = none
first_of (some x) = some x.0

abbrev pub second_of {ℓ κ} : {A : Type ℓ} {B : Type κ} → Option (A × B) → Option B
second_of none = none
second_of (some x) = some x.1

module _ {K V : Type 0} ⦃e : Eq K⦄ (key : V → K) (field : SwitchConfig → List V) where
  -- the first config that has an entry at the key: that entry, and the file
  unfoldable pub first_with : K → List ConfigWithMetadata → Option (V × Text)
  first_with k [] = none
  first_with k (c ∷ cs) =
      let rest = first_with k cs in
      elim (find (at key k) (field c.switch)) [ none ↦ rest | some v ↦ some (v, c.source_file) ]

  unfoldable gathered : List ConfigWithMetadata → List V
  gathered [] = []
  gathered (c ∷ cs) = field c.switch ++ gathered cs

  find-gathered :
      (k : K) (cs : List ConfigWithMetadata)
      → find (at key k) (gathered cs) ≡ first_of (first_with k cs)
  unfolding gathered first_with find
  find-gathered k [] = refl
  find-gathered k (c ∷ cs) =
      ground (arith, find-append (at key k) (field c.switch) (gathered cs), find-gathered k cs)

  insert_items-append :
      (m : HashMap K V) (vs ws : List V)
      → insert_items key m (vs ++ ws) ≡ insert_items key (insert_items key m vs) ws
  unfolding insert_items
  insert_items-append m [] ws = refl
  insert_items-append m (v ∷ vs) ws = insert_items-append (or_insert (key v) v m) vs ws

  insert_configs-gathered :
      (m : HashMap K V) (cs : List ConfigWithMetadata)
      → insert_configs key field m cs ≡ insert_items key m (gathered cs)
  unfolding insert_configs gathered insert_items
  insert_configs-gathered m [] = refl
  insert_configs-gathered m (c ∷ cs) =
      insert_configs-gathered (insert_items key m (field c.switch)) cs
      ∙ sym (insert_items-append m (field c.switch) (gathered cs))

  get-note_sources :
      (file : Text) (k : K) (m : HashMap K Text) (vs : List V)
      → get k (note_sources key field file m vs)
        ≡ or_option (get k m) (if has key vs k then some file else none)
  unfolding note_sources any
  get-note_sources file k m [] = ground arith
  get-note_sources file k m (v ∷ vs) =
      ground (
        arith,
        get-note_sources file k (or_insert (key v) file m) vs,
        get-or_insert (key v) k file m,
      )

  get-sources_of :
      (k : K) (m : HashMap K Text) (cs : List ConfigWithMetadata)
      → get k (sources_of key field m cs) ≡ or_option (get k m) (second_of (first_with k cs))
  unfolding sources_of first_with
  get-sources_of k m [] = ground arith
  get-sources_of k m (c ∷ cs) = ground (
    arith,
    get-sources_of k (note_sources key field c.source_file m (field c.switch)) cs,
    get-note_sources c.source_file k m (field c.switch),
    is_some-find (at key k) (field c.switch),
  )

  -- what is merged in the order of the keys, and where it is said to come from
  module _ (le : K → K → Bool) (le_refl : (k : K) → le k k ≡ true)
      (cs : List ConfigWithMetadata) where
    abbrev merged : List V
    merged = into_values key le (insert_configs key field [] cs)

    merged-entry : (k : K) → entry key k merged ≡ first_of (first_with k cs)
    merged-entry k =
        rw (insert_configs-gathered [] cs)
          (entry-merged key le le_refl (gathered cs) k ∙ find-gathered k cs)

    merged-distinct : distinct key merged ≡ true
    merged-distinct =
        rw (insert_configs-gathered [] cs) (distinct-merged key le le_refl (gathered cs))

leb_refl : (n : ℕ) → leb n n ≡ true
leb_refl n = ground arith

module _ (switch_id : Text) (configs : List ConfigWithMetadata) where
  abbrev pub merge : SwitchConfig × HashMap ℕ Text × HashMap Text Text
  merge = merge_single_switch switch_id configs

  by_priority-IsSorted :
      IsSorted (λ a b. leb a.merge_priority b.merge_priority) (by_priority configs)
  unfolding by_priority
  by_priority-IsSorted = sort-IsSorted _ (λ a b h. ground arith) (λ a b c h k. ground arith) configs

  -- configs of one priority keep their order
  by_priority-stable :
      (priority : ℕ)
      → filter (λ c. c.merge_priority == priority) (by_priority configs)
        ≡ filter (λ c. c.merge_priority == priority) configs
  unfolding by_priority
  by_priority-stable priority =
      filter-sort _ (λ c. c.merge_priority == priority) (λ a b h k. ground arith) configs

  -- The configs are taken in the order of their priorities, those of one priority in the order in which
  -- they are given. At each id the merged switch has the VLAN of the first config that has one there, and
  -- the file on record for the id is that config's; that holds, too, where a config of the same priority
  -- has another VLAN there, which is dropped and not reported.
  pub merged_vlan :
      IsSorted (λ a b. leb a.merge_priority b.merge_priority) (by_priority configs)
      × ((priority : ℕ)
          → filter (λ c. c.merge_priority == priority) (by_priority configs)
            ≡ filter (λ c. c.merge_priority == priority) configs)
      × ((id : ℕ)
          → (entry vlan_id id merge.0.vlans
              ≡ first_of (first_with vlan_id (λ s. s.vlans) id (by_priority configs)))
            × (get id merge.1
                ≡ second_of (first_with vlan_id (λ s. s.vlans) id (by_priority configs))))
  unfolding merge_single_switch merge_sorted get
  merged_vlan = (
    by_priority-IsSorted,
    by_priority-stable,
    λ id. (
      merged-entry vlan_id (λ s. s.vlans) leb leb_refl (by_priority configs) id,
      get-sources_of vlan_id (λ s. s.vlans) id [] (by_priority configs),
    ),
  )

  -- At each id the merged switch has the port, and at each session the mirror, of the first config, in
  -- the order of their priorities, that has one there; the file on record for a port is that config's. A
  -- port or mirror there of a later config is dropped, also of one with the same priority.
  pub merged_port :
      (id : Text)
      → (entry port_id_of id merge.0.ports
          ≡ first_of (first_with port_id_of (λ s. s.ports) id (by_priority configs)))
        × (get id merge.2
            ≡ second_of (first_with port_id_of (λ s. s.ports) id (by_priority configs)))
        × (entry session_id_of id merge.0.port_mirrors
            ≡ first_of (first_with session_id_of (λ s. s.port_mirrors) id (by_priority configs)))
  unfolding merge_single_switch merge_sorted get
  merged_port id = (
    merged-entry port_id_of (λ s. s.ports) text_le text_le_refl (by_priority configs) id,
    get-sources_of port_id_of (λ s. s.ports) id [] (by_priority configs),
    merged-entry session_id_of (λ s. s.port_mirrors) text_le text_le_refl (by_priority configs) id,
  )

  -- A merged switch has no two VLANs, ports or mirrors of one id.
  pub merged_distinct_ids :
      (distinct vlan_id merge.0.vlans ≡ true)
      × (distinct port_id_of merge.0.ports ≡ true)
      × (distinct session_id_of merge.0.port_mirrors ≡ true)
  unfolding merge_single_switch merge_sorted
  merged_distinct_ids = (
    merged-distinct vlan_id (λ s. s.vlans) leb leb_refl (by_priority configs),
    merged-distinct port_id_of (λ s. s.ports) text_le text_le_refl (by_priority configs),
    merged-distinct session_id_of (λ s. s.port_mirrors) text_le text_le_refl (by_priority configs),
  )
