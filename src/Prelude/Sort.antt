-- ===== src/Prelude/Sort.antt =====
-- `slice::sort_by`, which is stable, and the order in which a `BTreeMap` is visited.
use mathlib.Core.Path.{◌≡◌, refl}
use mathlib.Core.Logic.{inl, inr}
use mathlib.Core.Bool.{Bool, true, false}
use mathlib.Core.List.{List, [], ◌∷◌}
use native.Mathlib.Omega.{arith}
use switch_configurator.Prelude.Tests.{if◌then◌else◌, Bool-cases}
use switch_configurator.Prelude.Equality.{Eq}
use switch_configurator.Prelude.Lists.{
  count, contains, contains-of_count, filter, find_last, find_last-filter_self, All, any,
}

module _ {ℓ} {A : Type ℓ} (le : A → A → Bool) where
  unfoldable pub insert_sorted : A → List A → List A
  insert_sorted x [] = x ∷ []
  insert_sorted x (y ∷ ys) = if le x y then x ∷ y ∷ ys else y ∷ insert_sorted x ys

  unfoldable pub sort : List A → List A
  unfolding insert_sorted
  sort [] = []
  sort (x ∷ xs) = insert_sorted x (sort xs)

  abbrev pub IsSorted : List A → Type 0
  IsSorted [] = Unit
  IsSorted (x ∷ xs) = All (λ y. le x y ≡ true) xs × IsSorted xs

  -- a test that no two unequal elements pass both
  pub any-insert_sorted :
      (p : A → Bool) (x : A) (xs : List A) → any p (insert_sorted x xs) ≡ any p (x ∷ xs)
  unfolding any insert_sorted
  any-insert_sorted p x [] = refl
  any-insert_sorted p x (y ∷ ys) = ground (arith, any-insert_sorted p x ys)

  pub any-sort : (p : A → Bool) (xs : List A) → any p (sort xs) ≡ any p xs
  unfolding sort any
  any-sort p [] = refl
  any-sort p (x ∷ xs) = ground (arith, any-insert_sorted p x (sort xs), any-sort p xs)

  pub All-insert_sorted :
      (P : A → Type 0) (x : A) (xs : List A) → P x → All P xs → All P (insert_sorted x xs)
  unfolding insert_sorted
  All-insert_sorted P x [] px h = (px, h)
  All-insert_sorted P x (y ∷ ys) px (py, h) = elim (Bool-cases (le x y)) [
    | inl e ↦ rw e (px, (py, h))
    | inr e ↦ rw e (py, All-insert_sorted P x ys px h)
  ]

  pub All-sort : (P : A → Type 0) (xs : List A) → All P xs → All P (sort xs)
  unfolding sort
  All-sort P [] h = tt
  All-sort P (x ∷ xs) (px, h) = All-insert_sorted P x (sort xs) px (All-sort P xs h)

  All-of_insert_sorted :
      (P : A → Type 0) (x : A) (xs : List A) → All P (insert_sorted x xs) → P x × All P xs
  unfolding insert_sorted
  All-of_insert_sorted P x [] h = h
  All-of_insert_sorted P x (y ∷ ys) h = go (le x y) (All-of_insert_sorted P x ys) h
    where
      go :
          (b : Bool)
          → (All P (insert_sorted x ys) → P x × All P ys)
          → All P (if b then x ∷ y ∷ ys else y ∷ insert_sorted x ys)
          → P x × (P y × All P ys)
      go true rec h = h
      go false rec (py, h) = let (px, h') = rec h in (px, (py, h'))

  pub All-of_sort : (P : A → Type 0) (xs : List A) → All P (sort xs) → All P xs
  unfolding sort
  All-of_sort P [] h = tt
  All-of_sort P (x ∷ xs) h =
      let (px, h') = All-of_insert_sorted P x (sort xs) h in (px, All-of_sort P xs h')

  -- Sorting keeps the elements that pass a test in their order, if the test tells no equals apart.
  module _ (p : A → Bool) (near : (x y : A) → p x ≡ true → p y ≡ true → le x y ≡ true) where
    filter-insert_sorted : (x : A) (xs : List A) → filter p (insert_sorted x xs) ≡ filter p (x ∷ xs)
    unfolding filter insert_sorted
    filter-insert_sorted x [] = refl
    filter-insert_sorted x (y ∷ ys) = ground (arith, filter-insert_sorted x ys, near x y)

    pub filter-sort : (xs : List A) → filter p (sort xs) ≡ filter p xs
    unfolding sort filter
    filter-sort [] = refl
    filter-sort (x ∷ xs) = ground (arith, filter-insert_sorted x (sort xs), filter-sort xs)

module _ {ℓ} {A : Type ℓ} (le : A → A → Bool) where
  -- So the last of them is the same.
  pub find_last-sort :
      (p : A → Bool)
      → ((x y : A) → p x ≡ true → p y ≡ true → le x y ≡ true)
      → (xs : List A) → find_last p (sort le xs) ≡ find_last p xs
  find_last-sort p near xs =
      cc
        (find_last-filter_self p (sort le xs), find_last-filter_self p xs, filter-sort le p near xs)

  -- the order is total and transitive
  module _ (total : (x y : A) → le x y ≡ false → le y x ≡ true)
      (trans : (x y z : A) → le x y ≡ true → le y z ≡ true → le x z ≡ true) where
    All-le :
        (x y : A) (ys : List A)
        → le x y ≡ true
        → All (λ z. le y z ≡ true) ys
        → All (λ z. le x z ≡ true) ys
    All-le x y [] h hs = tt
    All-le x y (z ∷ zs) h (hz, hs) = (trans x y z h hz, All-le x y zs h hs)

    insert_sorted-IsSorted :
        (x : A) (xs : List A) → IsSorted le xs → IsSorted le (insert_sorted le x xs)
    unfolding insert_sorted
    insert_sorted-IsSorted x [] h = (tt, tt)
    insert_sorted-IsSorted x (y ∷ ys) (hy, hs) = elim (Bool-cases (le x y)) [
      | inl e ↦ rw e ((e, All-le x y ys e hy), (hy, hs))
      | inr e ↦ rw e (
        All-insert_sorted le (λ z. le y z ≡ true) x ys (total x y e) hy,
        insert_sorted-IsSorted x ys hs,
      )
    ]

    pub sort-IsSorted : (xs : List A) → IsSorted le (sort le xs)
    unfolding sort
    sort-IsSorted [] = tt
    sort-IsSorted (x ∷ xs) = insert_sorted-IsSorted x (sort le xs) (sort-IsSorted xs)

module _ {ℓ} {A : Type ℓ} ⦃e : Eq A⦄ (le : A → A → Bool) where
  count-insert_sorted : (a x : A) (xs : List A) → count a (insert_sorted le x xs) ≡ count a (x ∷ xs)
  unfolding count insert_sorted
  count-insert_sorted a x [] = refl
  count-insert_sorted a x (y ∷ ys) = ground (arith, count-insert_sorted a x ys)

  pub count-sort : (a : A) (xs : List A) → count a (sort le xs) ≡ count a xs
  unfolding sort count
  count-sort a [] = refl
  count-sort a (x ∷ xs) = ground (arith, count-insert_sorted a x (sort le xs), count-sort a xs)

  pub contains-sort : (xs : List A) (a : A) → contains (sort le xs) a ≡ contains xs a
  contains-sort xs a = contains-of_count a (sort le xs) xs (count-sort a xs)
