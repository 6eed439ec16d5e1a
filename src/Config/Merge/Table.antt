-- ===== src/Config/Merge/Table.antt =====
-- The loops of `merge_single_switch` over a kind of entry: a `BTreeMap` that keeps the first entry of
-- each key, and whose values are taken in the order of the keys.
use switch_configurator.Prelude.{
  ◌≡◌, refl, ap, ◌∙◌, Bool, true, ◌||◌, Option, none, some, List, [], ◌∷◌, Eq, ◌==◌, map, any, find,
  find_last, or_option, All, arith, Bool-cases, inl, inr, is_some-find_last,
}
use switch_configurator.Prelude.HashMap.{HashMap, get, or_insert, get-or_insert}
use switch_configurator.Prelude.Sort.{
  sort, insert_sorted, any-insert_sorted, any-sort, All-sort, find_last-sort,
}
use switch_configurator.Diff.Keyed.{at, has, entry, distinct}

module _ {K V : Type 0} ⦃e : Eq K⦄ (key : V → K) where
  unfoldable pub insert_items : HashMap K V → List V → HashMap K V
  insert_items m [] = m
  insert_items m (v ∷ vs) = insert_items (or_insert (key v) v m) vs

  -- `into_values()`
  unfoldable pub into_values : (K → K → Bool) → HashMap K V → List V
  into_values le m = map (λ x. x.1) (sort (λ x y. le x.0 y.0) m)

  get-insert_items :
      (k : K) (m : HashMap K V) (vs : List V)
      → get k (insert_items m vs) ≡ or_option (get k m) (find (at key k) vs)
  unfolding insert_items find
  get-insert_items k m [] = ground arith
  get-insert_items k m (v ∷ vs) =
      ground (arith, get-insert_items k (or_insert (key v) v m) vs, get-or_insert (key v) k v m)

  abbrev fst : K × V → K
  fst x = x.0

  -- each entry stands under its own key
  abbrev pub Keyed : HashMap K V → Type 0
  Keyed m = All (λ x. x.0 ≡ key x.1) m

  or_insert-Keyed : (v : V) (m : HashMap K V) → Keyed m → Keyed (or_insert (key v) v m)
  unfolding or_insert
  or_insert-Keyed v [] h = (refl, tt)
  or_insert-Keyed v ((j, w) ∷ m) (hj, h) = elim (Bool-cases (j == key v)) [
    | inl q ↦ rw q (hj, h)
    | inr q ↦ rw q (hj, or_insert-Keyed v m h)
  ]

  has-or_insert :
      (k j : K) (v : V) (m : HashMap K V) → has fst (or_insert k v m) j ≡ (has fst m j || k == j)
  unfolding or_insert any
  has-or_insert k j v [] = ground arith
  has-or_insert k j v ((i, w) ∷ m) =
      ground (arith, has-or_insert k j v m, e.eq_test_iff i k, e.eq_test_iff i j, e.eq_test_iff k j)

  distinct-or_insert :
      (k : K) (v : V) (m : HashMap K V)
      → distinct fst m ≡ true
      → distinct fst (or_insert k v m) ≡ true
  unfolding or_insert distinct any
  distinct-or_insert k v [] h = refl
  distinct-or_insert k v ((i, w) ∷ m) h =
      ground (
        arith,
        distinct-or_insert k v m,
        has-or_insert k i v m,
        e.eq_test_iff i k,
        e.eq_test_iff k i,
      )

  insert_items_lem :
      (m : HashMap K V) (vs : List V)
      → Keyed m
      → distinct fst m ≡ true
      → Keyed (insert_items m vs) × (distinct fst (insert_items m vs) ≡ true)
  unfolding insert_items
  insert_items_lem m [] h d = (h, d)
  insert_items_lem m (v ∷ vs) h d =
      insert_items_lem (or_insert (key v) v m) vs (or_insert-Keyed v m h)
        (distinct-or_insert (key v) v m d)

  abbrev value_of : Option (K × V) → Option V
  value_of none = none
  value_of (some x) = some x.1

  entry-values :
      (k : K) (m : HashMap K V)
      → Keyed m
      → entry key k (map (λ x. x.1) m) ≡ value_of (find_last (at fst k) m)
  unfolding find_last
  entry-values k [] h = refl
  entry-values k ((j, w) ∷ m) (hj, h) = ground (arith, entry-values k m h, hj)

  get-find_last :
      (k : K) (m : HashMap K V)
      → distinct fst m ≡ true
      → value_of (find_last (at fst k) m) ≡ get k m
  unfolding find_last distinct get
  get-find_last k [] h = refl
  get-find_last k ((j, w) ∷ m) h =
      ground (arith, get-find_last k m, is_some-find_last (at fst k) m, e.eq_test_iff j k)

  has-values : (k : K) (m : HashMap K V) → Keyed m → has key (map (λ x. x.1) m) k ≡ has fst m k
  unfolding any
  has-values k [] h = refl
  has-values k ((j, w) ∷ m) (hj, h) = ground (arith, has-values k m h, hj)

  distinct-values : (m : HashMap K V) → Keyed m → distinct key (map (λ x. x.1) m) ≡ distinct fst m
  unfolding distinct
  distinct-values [] h = refl
  distinct-values ((j, w) ∷ m) (hj, h) =
      ground (arith, distinct-values m h, has-values (key w) m h, hj)

module _ {K V : Type 0} ⦃e : Eq K⦄ (key : V → K) (le : K → K → Bool)
    (le_refl : (k : K) → le k k ≡ true) where
  abbrev by_key : K × V → K × V → Bool
  by_key x y = le x.0 y.0

  distinct-insert_sorted :
      (x : K × V) (m : HashMap K V)
      → distinct (fst key) (insert_sorted by_key x m) ≡ distinct (fst key) (x ∷ m)
  unfolding distinct insert_sorted any
  distinct-insert_sorted x [] = refl
  distinct-insert_sorted x (y ∷ m) = ground (
    arith,
    distinct-insert_sorted x m,
    any-insert_sorted by_key (at (fst key) y.0) x m,
    e.eq_test_iff x.0 y.0,
    e.eq_test_iff y.0 x.0,
  )

  distinct-sort : (m : HashMap K V) → distinct (fst key) (sort by_key m) ≡ distinct (fst key) m
  unfolding distinct sort
  distinct-sort [] = refl
  distinct-sort (x ∷ m) = ground (
    arith,
    distinct-insert_sorted x (sort by_key m),
    distinct-sort m,
    any-sort by_key (at (fst key) x.0) m,
  )

  near :
      (k : K) (x y : K × V) → at (fst key) k x ≡ true → at (fst key) k y ≡ true → by_key x y ≡ true
  near k x y hx hy = rw ((e.eq_test_iff x.0 k).0 hx, (e.eq_test_iff y.0 k).0 hy) (le_refl k)

  module _ (vs : List V) where
    abbrev table : HashMap K V
    table = insert_items key [] vs

    -- the entry at a key is the first one of that key
    pub entry-merged : (k : K) → entry key k (into_values key le table) ≡ find (at key k) vs
    unfolding into_values get distinct
    entry-merged k =
        let (keyed, apart) = insert_items_lem key [] vs tt refl in
        entry-values key k (sort by_key table) (All-sort by_key _ table keyed)
        ∙ ap (value_of key) (find_last-sort by_key (at (fst key) k) (near k) table)
        ∙ get-find_last key k table apart
        ∙ get-insert_items key k [] vs

    pub distinct-merged : distinct key (into_values key le table) ≡ true
    unfolding into_values distinct
    distinct-merged =
        let (keyed, apart) = insert_items_lem key [] vs tt refl in
        distinct-values key (sort by_key table) (All-sort by_key _ table keyed)
        ∙ distinct-sort table
        ∙ apart
