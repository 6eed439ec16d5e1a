-- ===== src/Diff/Keyed/Settled.antt =====
-- A table after the entries that the loops of `Diff.Keyed` list are taken out, replaced and put in:
-- the loops then list nothing more.
use switch_configurator.Prelude.{
  filter-true, ◌&&◌, ◌≡◌, refl, sym, ◌∙◌, Bool, true, not, ◌||◌, Option, none, some, List, [], ◌++◌,
  arith, Eq, filter, any, contains, or_option, if◌then◌else◌, is_some-find_last, find_last-append,
  contains-filter,
}
use switch_configurator.Prelude.HashMap.{HashOrder}
use switch_configurator.Diff.Keyed.{
  added, removed, changed, changed_entry, at, has, entry, entry-filter, none_of_entries,
  none_of_contains, entry-added, contains-removed, entry-changed,
}

module _ {K V : Type 0} ⦃e : Eq K⦄ (key : V → K) where
  unfoldable pub carry_out : List K → List V → List V → List V → List V
  unfolding filter contains any
  carry_out gone updates news vs =
      filter (λ v. not (contains gone (key v) || has key updates (key v))) vs ++ (updates ++ news)

  pub entry-carry_out :
      (gone : List K) (updates news vs : List V) (k : K)
      → entry key k (carry_out gone updates news vs)
        ≡ or_option
            (entry key k news)
            (or_option (entry key k updates) (if contains gone k then none else entry key k vs))
  unfolding carry_out
  entry-carry_out gone updates news vs k = ground (
    arith,
    find_last-append (at key k)
        (filter (λ v. not (contains gone (key v) || has key updates (key v))) vs) (updates ++ news),
    find_last-append (at key k) updates news,
    entry-filter key (λ j. not (contains gone j || has key updates j)) k vs,
    is_some-find_last (at key k) updates,
  )

abbrev pub settled_entry : {V : Type 0} → (V → V → Bool) → Option V → Option V → Bool → Option V
settled_entry same none none b = none
settled_entry same (some c) none b = if b then some c else none
settled_entry same none (some w) b = some w
settled_entry same (some c) (some w) b = if same c w then some c else some w

-- Three lists that hold, key by key, what the loops list. The entries whose keys are `kept` stay.
pub record Listed {K V : Type 0} ⦃e : Eq K⦄ (key : V → K) (same : V → V → Bool) (kept : K → Bool)
    (current wanted news updates : List V) (gone : List K) : Type 0 where
  pub news_at :
      (k : K) → entry key k news ≡ (if has key current k then none else entry key k wanted)
  pub updates_at :
      (k : K) → entry key k updates ≡ changed_entry same (entry key k current) (entry key k wanted)
  pub gone_at :
      (k : K) → contains gone k ≡ (not (kept k) && (has key current k && not (has key wanted k)))

module _ {K V : Type 0} ⦃e : Eq K⦄ {key : V → K} {same : V → V → Bool} {kept : K → Bool}
    {current wanted news updates : List V} {gone : List K}
    (l : Listed key same kept current wanted news updates gone) where
  abbrev pub settled : List V
  settled = carry_out key gone updates news current

  pub entry-settled :
      (k : K)
      → entry key k settled ≡ settled_entry same (entry key k current) (entry key k wanted) (kept k)
  entry-settled k = ground (
    arith,
    entry-carry_out key gone updates news current k,
    l.news_at k,
    l.updates_at k,
    l.gone_at k,
    is_some-find_last (at key k) current,
    is_some-find_last (at key k) wanted,
  )

  -- from here on the loops may visit the tables in another order
  module _ (order : HashOrder K) where
    pub added-settled : added key order settled wanted ≡ []
    added-settled = none_of_entries key (added key order settled wanted) λ k. ground (
      arith,
      entry-added key order settled wanted k,
      entry-settled k,
      is_some-find_last (at key k) settled,
    )

    contains-removed-settled :
        (k : K) → contains (removed key order settled wanted) k ≡ true → kept k ≡ true
    contains-removed-settled k h = ground (
      arith,
      contains-removed key order settled wanted k,
      entry-settled k,
      is_some-find_last (at key k) settled,
      is_some-find_last (at key k) wanted,
    )

    pub kept-settled : filter (λ k. not (kept k)) (removed key order settled wanted) ≡ []
    kept-settled =
        none_of_contains (filter (λ k. not (kept k)) (removed key order settled wanted)) λ k.
          ground (
            arith,
            contains-filter (λ j. not (kept j)) k (removed key order settled wanted),
            contains-removed-settled k,
          )

    changed_entry-settled :
        ((v : V) → same v v ≡ true)
        → (c w : Option V) (b : Bool) → changed_entry same (settled_entry same c w b) w ≡ none
    changed_entry-settled same_refl none none b = refl
    changed_entry-settled same_refl none (some w) b = ground (arith, same_refl w)
    changed_entry-settled same_refl (some c) none b = ground arith
    changed_entry-settled same_refl (some c) (some w) b = ground (arith, same_refl w)

    pub changed-settled : ((v : V) → same v v ≡ true) → changed key order same settled wanted ≡ []
    changed-settled same_refl = none_of_entries key (changed key order same settled wanted) λ k.
        ground (
          arith,
          entry-changed key order settled wanted same k,
          entry-settled k,
          changed_entry-settled same_refl (entry key k current) (entry key k wanted) (kept k),
        )

-- If everything goes for good, nothing is left to take out.
module _ {K V : Type 0} ⦃e : Eq K⦄ (key : V → K) (order : HashOrder K)
    (current wanted : List V) where
  pub removed_of_kept :
      filter (λ k. true) (removed key order current wanted) ≡ []
      → removed key order current wanted ≡ []
  removed_of_kept h = sym (filter-true (removed key order current wanted)) ∙ h
