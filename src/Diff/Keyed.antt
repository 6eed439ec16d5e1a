-- ===== src/Diff/Keyed.antt =====
-- The loops that diff/mod.rs writes out for VLANs, mirrors and SNMP entries alike: both lists are
-- collected into a `HashMap` by their key, and the keys of one are visited.
pub mod Settled
use switch_configurator.Prelude.{
  ℕ, ◌≡◌, refl, sym, ◌∙◌, Bool, true, false, not, ◌&&◌, ◌||◌, Option, none, some, List, [], ◌∷◌,
  ◌++◌, arith, Eq, ◌==◌, filter, filter_map, any, find_last, contains, count, is_some, or_option,
  if◌then◌else◌, find_last_sound, is_some-find_last, find_last-append, contains-filter,
  contains-of_count, ==_refl, All, All-map,
}
use switch_configurator.Prelude.HashMap.{
  HashMap, HashOrder, get, keys, collect, get-collect, contains-keys-collect,
}

abbrev pub changed_entry : {V : Type 0} → (V → V → Bool) → Option V → Option V → Option V
changed_entry same (some c) (some w) = if same c w then none else some w
changed_entry same _ _ = none

module _ {K V : Type 0} ⦃e : Eq K⦄ (key : V → K) (order : HashOrder K) where
  -- for k in wanted.difference(current): push(wanted[k])
  unfoldable pub added : List V → List V → List V
  unfolding filter filter_map contains get keys collect
  added current wanted =
      let here = keys (collect key current) in
      let wanted_map = collect key wanted in
      filter_map (λ k. get k wanted_map)
        (order.visit (filter (λ k. not (contains here k)) (keys wanted_map)))

  -- for k in current.difference(wanted): push(k)
  unfoldable pub removed : List V → List V → List K
  unfolding filter contains keys collect
  removed current wanted =
      let wanted_keys = keys (collect key wanted) in
      order.visit (filter (λ k. not (contains wanted_keys k)) (keys (collect key current)))

  module _ (same : V → V → Bool) where
    -- for k in current.intersection(wanted): if current[k] differs from wanted[k], push(wanted[k])
    unfoldable pub changed : List V → List V → List V
    unfolding filter filter_map contains get keys collect
    changed current wanted =
        let current_map = collect key current in
        let wanted_map = collect key wanted in
        filter_map (λ k. changed_entry same (get k current_map) (get k wanted_map))
          (order.visit (filter (λ k. contains (keys wanted_map) k) (keys current_map)))

module _ {K V : Type 0} ⦃e : Eq K⦄ (key : V → K) where
  abbrev pub at : K → V → Bool
  at k v = key v == k

  abbrev pub has : List V → K → Bool
  has vs k = any (at k) vs

  abbrev pub entry : K → List V → Option V
  entry k vs = find_last (at k) vs

  entry-key : (k : K) (vs : List V) (v : V) → entry k vs ≡ some v → key v ≡ k
  entry-key k vs v h = ground (arith, find_last_sound (at k) vs {y = v} h, e.eq_test_iff (key v) k)

  -- the entries that a keyed choice picks for some keys
  pub entry-filter_map :
      (f : K → Option V)
      → ((k : K) (v : V) → f k ≡ some v → key v ≡ k)
      → (k : K) (ks : List K) → entry k (filter_map f ks) ≡ (if contains ks k then f k else none)
  unfolding filter_map contains find_last
  entry-filter_map f keyed k [] = refl
  entry-filter_map f keyed k (j ∷ ks) = go (f j) refl (entry-filter_map f keyed k ks)
    where
      go :
          (o : Option V)
          → f j ≡ o
          → entry k (filter_map f ks) ≡ (if contains ks k then f k else none)
          → entry k (filter_map f (j ∷ ks)) ≡ (if contains (j ∷ ks) k then f k else none)
      go none q ih = ground (arith, e.eq_test_iff j k)
      go (some v) q ih = ground (arith, keyed j v q, e.eq_test_iff j k)

  pub entry-filter :
      (keep : K → Bool) (k : K) (vs : List V)
      → entry k (filter (λ v. keep (key v)) vs) ≡ (if keep k then entry k vs else none)
  unfolding filter find_last
  entry-filter keep k [] = ground arith
  entry-filter keep k (v ∷ vs) = ground (arith, entry-filter keep k vs, e.eq_test_iff (key v) k)

  -- no two entries have one key
  unfoldable pub distinct : List V → Bool
  unfolding any
  distinct [] = true
  distinct (v ∷ vs) = not (has vs (key v)) && distinct vs

  entry-none : (k : K) (vs : List V) → has vs k ≡ false → entry k vs ≡ none
  entry-none k vs h = ground (arith, is_some-find_last (at k) vs)

  pub entry-filter-distinct :
      (p : V → Bool) (k : K) (vs : List V)
      → distinct vs ≡ true
      → entry k (filter p vs)
        ≡ elim (entry k vs) [ none ↦ none | some v ↦ if p v then some v else none ]
  unfolding distinct filter find_last any
  entry-filter-distinct p k [] h = refl
  entry-filter-distinct p k (v ∷ vs) h =
      ground (arith, entry-filter-distinct p k vs, e.eq_test_iff (key v) k, entry-none (key v) vs)

  pub entry_of_distinct :
      (vs : List V) → distinct vs ≡ true → All (λ v. entry (key v) vs ≡ some v) vs
  unfolding distinct find_last
  entry_of_distinct [] h = tt
  entry_of_distinct (v ∷ vs) h = (
    ground (arith, entry-none (key v) vs, ==_refl (key v)),
    All-map (λ u. entry (key u) vs ≡ some u) (λ u. entry (key u) (v ∷ vs) ≡ some u)
        (λ u q. ground (arith, q)) vs (entry_of_distinct vs (ground arith)),
  )

  -- a list with no entry at any key is empty
  pub none_of_entries : (vs : List V) → ((k : K) → entry k vs ≡ none) → vs ≡ []
  unfolding find_last
  none_of_entries [] h = refl
  none_of_entries (v ∷ vs) h = ground (arith, h (key v), ==_refl (key v))

module _ {K : Type 0} ⦃e : Eq K⦄ where
  pub none_of_contains : (ks : List K) → ((k : K) → contains ks k ≡ false) → ks ≡ []
  unfolding contains
  none_of_contains [] h = refl
  none_of_contains (k ∷ ks) h = ground (arith, h k, ==_refl k)

changed_entry-wanted :
    {V : Type 0} (same : V → V → Bool) (c w : Option V) (v : V)
    → changed_entry same c w ≡ some v
    → w ≡ some v
changed_entry-wanted same none w v h = ground arith
changed_entry-wanted same (some c) none v h = ground arith
changed_entry-wanted same (some c) (some w) v h = ground arith

-- What the three loops find, key by key.
module _ {K V : Type 0} ⦃e : Eq K⦄ (key : V → K) (order : HashOrder K)
    (current wanted : List V) where
  visits :
      (p : K → Bool) (ks : List K) (k : K)
      → contains (order.visit (filter p ks)) k ≡ (p k && contains ks k)
  visits p ks k =
      contains-of_count k (order.visit (filter p ks)) (filter p ks)
        (order.visits_each k (filter p ks))
      ∙ contains-filter p k ks

  pub entry-added :
      (k : K)
      → entry key k (added key order current wanted)
        ≡ (if has key current k then none else entry key k wanted)
  unfolding added
  entry-added k =
      let here = keys (collect key current) in
      let wanted_map = collect key wanted in
      ground (
        arith,
        entry-filter_map key (λ j. get j wanted_map)
            (λ j v h. entry-key key j wanted v (sym (get-collect key j wanted) ∙ h)) k
            (order.visit (filter (λ j. not (contains here j)) (keys wanted_map))),
        visits (λ j. not (contains here j)) (keys wanted_map) k,
        get-collect key k wanted,
        contains-keys-collect key k current,
        contains-keys-collect key k wanted,
        is_some-find_last (at key k) wanted,
      )

  pub contains-removed :
      (k : K)
      → contains (removed key order current wanted) k
        ≡ (has key current k && not (has key wanted k))
  unfolding removed
  contains-removed k =
      let wanted_keys = keys (collect key wanted) in
      ground (
        arith,
        visits (λ j. not (contains wanted_keys j)) (keys (collect key current)) k,
        contains-keys-collect key k current,
        contains-keys-collect key k wanted,
      )

  module _ (same : V → V → Bool) where
    changed_entry-key :
        (k : K) (v : V)
        → changed_entry same (get k (collect key current)) (get k (collect key wanted)) ≡ some v
        → key v ≡ k
    changed_entry-key k v h = entry-key key k wanted v (
        sym (get-collect key k wanted)
        ∙ changed_entry-wanted same (get k (collect key current)) (get k (collect key wanted)) v h)

    pub entry-changed :
        (k : K)
        → entry key k (changed key order same current wanted)
          ≡ changed_entry same (entry key k current) (entry key k wanted)
    unfolding changed
    entry-changed k =
        let current_map = collect key current in
        let wanted_map = collect key wanted in
        ground (
          arith,
          entry-filter_map key (λ j. changed_entry same (get j current_map) (get j wanted_map))
              changed_entry-key k
              (order.visit (filter (λ j. contains (keys wanted_map) j) (keys current_map))),
          visits (λ j. contains (keys wanted_map) j) (keys current_map) k,
          get-collect key k wanted,
          get-collect key k current,
          contains-keys-collect key k current,
          contains-keys-collect key k wanted,
          is_some-find_last (at key k) wanted,
          is_some-find_last (at key k) current,
        )
