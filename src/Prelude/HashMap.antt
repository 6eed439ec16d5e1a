-- ===== src/Prelude/HashMap.antt =====
-- `std::collections::HashMap`, as a list of entries with distinct keys.
use switch_configurator.Prelude.Tests.{if◌then◌else◌, is_some, or_option}
use switch_configurator.Prelude.Equality.{Eq, ◌==◌}
use switch_configurator.Prelude.Lists.{
  contains, count, contains-count, find_last, any, is_some-find_last,
}
use Prim.Native.Nat.{◌≤◌}
use mathlib.Core.Path.{◌≡◌, refl}
use mathlib.Core.Bool.{Bool}
use mathlib.Core.Option.{Option, none, some}
use mathlib.Core.List.{List, [], ◌∷◌}
use native.Mathlib.Omega.{arith}

abbrev pub HashMap : Type 0 → Type 0 → Type 0
HashMap K V = List (K × V)

module _ {K V : Type 0} ⦃e : Eq K⦄ where
  unfoldable pub get : K → HashMap K V → Option V
  get k [] = none
  get k ((j, v) ∷ m) = if j == k then some v else get k m

  -- the new value replaces the old one
  unfoldable pub insert : K → V → HashMap K V → HashMap K V
  insert k v [] = (k, v) ∷ []
  insert k v ((j, w) ∷ m) = if j == k then (j, v) ∷ m else (j, w) ∷ insert k v m

  -- `entry(k).or_insert(v)`
  unfoldable pub or_insert : K → V → HashMap K V → HashMap K V
  or_insert k v [] = (k, v) ∷ []
  or_insert k v ((j, w) ∷ m) = if j == k then (j, w) ∷ m else (j, w) ∷ or_insert k v m

  unfoldable pub remove : K → HashMap K V → HashMap K V
  remove k [] = []
  remove k ((j, w) ∷ m) = let rest = remove k m in if j == k then rest else (j, w) ∷ rest

  abbrev pub contains_key : K → HashMap K V → Bool
  contains_key k m = is_some (get k m)

  unfoldable pub keys : HashMap K V → List K
  keys [] = []
  keys ((j, w) ∷ m) = j ∷ keys m

  pub get-insert :
      (k j : K) (v : V) (m : HashMap K V)
      → get j (insert k v m) ≡ (if k == j then some v else get j m)
  unfolding get insert
  get-insert k j v [] = refl
  get-insert k j v ((i, w) ∷ m) =
      ground (arith, get-insert k j v m, e.eq_test_iff k j, e.eq_test_iff i k, e.eq_test_iff i j)

  pub get-or_insert :
      (k j : K) (v : V) (m : HashMap K V)
      → get j (or_insert k v m)
        ≡ (if k == j then (if is_some (get j m) then get j m else some v) else get j m)
  unfolding get or_insert
  get-or_insert k j v [] = ground arith
  get-or_insert k j v ((i, w) ∷ m) =
      ground (arith, get-or_insert k j v m, e.eq_test_iff k j, e.eq_test_iff i k, e.eq_test_iff i j)

  pub get-remove :
      (k j : K) (m : HashMap K V) → get j (remove k m) ≡ (if k == j then none else get j m)
  unfolding get remove
  get-remove k j [] = ground arith
  get-remove k j ((i, w) ∷ m) =
      ground (arith, get-remove k j m, e.eq_test_iff k j, e.eq_test_iff i k, e.eq_test_iff i j)

  pub contains-keys : (k : K) (m : HashMap K V) → contains (keys m) k ≡ contains_key k m
  unfolding contains keys get
  contains-keys k [] = refl
  contains-keys k ((j, v) ∷ m) = ground (arith, contains-keys k m)

  count-keys-insert :
      (k j : K) (v : V) (m : HashMap K V)
      → count j (keys (insert k v m)) ≡ (
          if k == j
          then (if contains (keys m) j then count j (keys m) else 1)
          else count j (keys m))
  unfolding count keys insert contains
  count-keys-insert k j v [] = ground arith
  count-keys-insert k j v ((i, w) ∷ m) = ground (
    arith,
    count-keys-insert k j v m,
    e.eq_test_iff k j,
    e.eq_test_iff i k,
    e.eq_test_iff i j,
    contains-count j (keys m),
  )

  pub count-keys-insert-le :
      (k j : K) (v : V) (m : HashMap K V) → count j (keys m) ≤ 1 → count j (keys (insert k v m)) ≤ 1
  count-keys-insert-le k j v m h = ground (arith, count-keys-insert k j v m)

-- `iter().map(|x| (key(x), x)).collect()`: a later element replaces an earlier one of its key
module _ {K V : Type 0} ⦃e : Eq K⦄ (key : V → K) where
  collect_into : HashMap K V → List V → HashMap K V
  collect_into m [] = m
  collect_into m (x ∷ xs) = collect_into (insert (key x) x m) xs

  unfoldable pub collect : List V → HashMap K V
  unfolding collect_into
  collect xs = collect_into [] xs

  get-collect_into :
      (k : K) (m : HashMap K V) (xs : List V)
      → get k (collect_into m xs) ≡ or_option (find_last (λ x. key x == k) xs) (get k m)
  unfolding collect_into find_last
  get-collect_into k m [] = refl
  get-collect_into k m (x ∷ xs) =
      ground (arith, get-collect_into k (insert (key x) x m) xs, get-insert (key x) k x m)

  pub get-collect : (k : K) (xs : List V) → get k (collect xs) ≡ find_last (λ x. key x == k) xs
  unfolding collect get
  get-collect k xs = ground (arith, get-collect_into k [] xs)

  count-keys-collect_into :
      (k : K) (m : HashMap K V) (xs : List V)
      → count k (keys m) ≤ 1
      → count k (keys (collect_into m xs)) ≤ 1
  unfolding collect_into
  count-keys-collect_into k m [] h = h
  count-keys-collect_into k m (x ∷ xs) h =
      count-keys-collect_into k (insert (key x) x m) xs (count-keys-insert-le (key x) k x m h)

  -- no key is visited twice
  pub count-keys-collect : (k : K) (xs : List V) → count k (keys (collect xs)) ≤ 1
  unfolding collect keys count
  count-keys-collect k xs = count-keys-collect_into k [] xs (omega arith)

  pub contains-keys-collect :
      (k : K) (xs : List V) → contains (keys (collect xs)) k ≡ any (λ x. key x == k) xs
  contains-keys-collect k xs = ground (
    arith,
    contains-keys k (collect xs),
    get-collect k xs,
    is_some-find_last (λ x. key x == k) xs,
  )

-- The order in which a `HashMap` or a `HashSet` is visited. Rust leaves it open: any order of the
-- elements, each as often as it is there.
pub record HashOrder (K : Type 0) ⦃e : Eq K⦄ : Type 0 where
  pub visit : List K → List K
  pub visits_each : (k : K) (ks : List K) → count k (visit ks) ≡ count k ks

-- the order of insertion
abbrev pub insertion_order : {K : Type 0} ⦃e : Eq K⦄ → HashOrder K
insertion_order = record { visit = λ ks. ks; visits_each = λ k ks. refl }
