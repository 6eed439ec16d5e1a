-- ===== src/Prelude/Lists.antt =====
-- Lists over the native numbers and the lemmas about membership that the components share.
use Prim.Native.Nat.{ℕ, suc, ◌+◌, ◌<◌}
use mathlib.Core.Path.{◌≡◌, refl}
use mathlib.Core.Logic.{◌↔◌}
use mathlib.Core.Bool.{Bool, true, false, ◌||◌, ◌&&◌}
use mathlib.Core.Option.{Option, none, some}
use mathlib.Core.List.{List, [], ◌∷◌, ◌++◌}
use native.Mathlib.Omega.{arith}
use switch_configurator.Prelude.Tests.{if◌then◌else◌, is_some, or_option}
use switch_configurator.Prelude.Equality.{Eq, ◌==◌}

module _ {ℓ} {A : Type ℓ} where
  abbrev pub length : List A → ℕ
  length [] = 0
  length (x ∷ xs) = suc (length xs)

  abbrev pub is_empty : List A → Bool
  is_empty [] = true
  is_empty (x ∷ xs) = false

  -- Rust's `Iterator::filter` with a test into `Bool`
  unfoldable pub filter : (A → Bool) → List A → List A
  filter p [] = []
  filter p (x ∷ xs) = let rest = filter p xs in if p x then x ∷ rest else rest

  -- Rust's `Iterator::any`
  unfoldable pub any : (A → Bool) → List A → Bool
  any p [] = false
  any p (x ∷ xs) = p x || any p xs

  -- Rust's `Iterator::filter_map`
  unfoldable pub filter_map {κ} : {B : Type κ} → (A → Option B) → List A → List B
  filter_map f [] = []
  filter_map f (x ∷ xs) =
      let rest = filter_map f xs in elim (f x) [ none ↦ rest | some y ↦ y ∷ rest ]

  -- the last element that passes the test
  unfoldable pub find_last : (A → Bool) → List A → Option A
  find_last p [] = none
  find_last p (x ∷ xs) = or_option (find_last p xs) (if p x then some x else none)

  -- Rust's `Iterator::find`
  unfoldable pub find : (A → Bool) → List A → Option A
  find p [] = none
  find p (x ∷ xs) = let rest = find p xs in if p x then some x else rest

  pub find_last_sound : (p : A → Bool) (xs : List A) {y : A} → find_last p xs ≡ some y → p y ≡ true
  unfolding find_last
  find_last_sound p [] h = ground arith
  find_last_sound p (x ∷ xs) {y} h = ground (arith, find_last_sound p xs {y = y})

  pub is_some-find_last : (p : A → Bool) (xs : List A) → is_some (find_last p xs) ≡ any p xs
  unfolding find_last any
  is_some-find_last p [] = refl
  is_some-find_last p (x ∷ xs) = ground (arith, is_some-find_last p xs)

  pub find_last-append :
      (p : A → Bool) (xs ys : List A)
      → find_last p (xs ++ ys) ≡ or_option (find_last p ys) (find_last p xs)
  unfolding find_last
  find_last-append p [] ys = ground arith
  find_last-append p (x ∷ xs) ys = ground (arith, find_last-append p xs ys)

  pub any-append : (p : A → Bool) (xs ys : List A) → any p (xs ++ ys) ≡ (any p xs || any p ys)
  unfolding any
  any-append p [] ys = refl
  any-append p (x ∷ xs) ys = ground (arith, any-append p xs ys)

  pub filter-true : (xs : List A) → filter (λ _. true) xs ≡ xs
  unfolding filter
  filter-true [] = refl
  filter-true (x ∷ xs) = ground (arith, filter-true xs)

  -- the last element that passes the test is the last one of those that do
  pub find_last-filter_self :
      (p : A → Bool) (xs : List A) → find_last (λ _. true) (filter p xs) ≡ find_last p xs
  unfolding find_last filter
  find_last-filter_self p [] = refl
  find_last-filter_self p (x ∷ xs) = ground (arith, find_last-filter_self p xs)

  abbrev pub All {κ} : (A → Type κ) → List A → Type κ
  All P [] = Unit
  All P (x ∷ xs) = P x × All P xs

module _ {ℓ κ} {A : Type ℓ} (P : A → Type κ) where
  pub All-append : (xs ys : List A) → All P xs → All P ys → All P (xs ++ ys)
  All-append [] ys h k = k
  All-append (x ∷ xs) ys (px, h) k = (px, All-append xs ys h k)

-- `contains` of a list or a set, and how often an element occurs
module _ {ℓ} {A : Type ℓ} ⦃e : Eq A⦄ where
  unfoldable pub contains : List A → A → Bool
  contains [] a = false
  contains (x ∷ xs) a = x == a || contains xs a

  unfoldable pub count : A → List A → ℕ
  count a [] = 0
  count a (x ∷ xs) = if x == a then suc (count a xs) else count a xs

  pub contains-count : (a : A) (xs : List A) → (contains xs a ≡ true) ↔ (0 < count a xs)
  unfolding contains count
  contains-count a [] = (λ h. ground arith, λ h. ground arith)
  contains-count a (x ∷ xs) =
      let ih = contains-count a xs in (λ h. ground (arith, ih), λ h. ground (arith, ih))

  pub contains-of_count :
      (a : A) (xs ys : List A) → count a xs ≡ count a ys → contains xs a ≡ contains ys a
  contains-of_count a xs ys h = ground (arith, contains-count a xs, contains-count a ys, h)

  pub contains-filter :
      (p : A → Bool) (a : A) (xs : List A) → contains (filter p xs) a ≡ (p a && contains xs a)
  unfolding contains filter
  contains-filter p a [] = ground arith
  contains-filter p a (x ∷ xs) = ground (arith, contains-filter p a xs, e.eq_test_iff x a)

  pub contains-append :
      (xs ys : List A) (a : A) → contains (xs ++ ys) a ≡ (contains xs a || contains ys a)
  unfolding contains
  contains-append [] ys a = refl
  contains-append (x ∷ xs) ys a = ground (arith, contains-append xs ys a)

  pub count-append : (xs ys : List A) (a : A) → count a (xs ++ ys) ≡ count a xs + count a ys
  unfolding count
  count-append [] ys a = omega arith
  count-append (x ∷ xs) ys a = ground (arith, count-append xs ys a)

  pub count-filter :
      (p : A → Bool) (a : A) (xs : List A) → count a (filter p xs) ≡ (if p a then count a xs else 0)
  unfolding count filter
  count-filter p a [] = ground arith
  count-filter p a (x ∷ xs) = ground (arith, count-filter p a xs, e.eq_test_iff x a)

module _ {ℓ} {A : Type ℓ} where
  pub All-map {κ μ} :
      (P : A → Type κ) (Q : A → Type μ)
      → ((x : A) → P x → Q x)
      → (xs : List A) → All P xs
      → All Q xs
  All-map P Q f [] h = tt
  All-map P Q f (x ∷ xs) (px, h) = (f x px, All-map P Q f xs h)

  pub filter_none : (p : A → Bool) (xs : List A) → All (λ x. p x ≡ false) xs → filter p xs ≡ []
  unfolding filter
  filter_none p [] h = refl
  filter_none p (x ∷ xs) (hx, h) = ground (arith, filter_none p xs h)

  pub any_none : (p : A → Bool) (xs : List A) → any p xs ≡ false → All (λ x. p x ≡ false) xs
  unfolding any
  any_none p [] h = tt
  any_none p (x ∷ xs) h = (ground arith, any_none p xs (ground arith))

-- a relation between the elements of two lists of one length, each with the one in its place
abbrev pub Pairwise : {A B : Type 0} → (A → B → Type 0) → List A → List B → Type 0
Pairwise R [] [] = Unit {0}
Pairwise R [] (y ∷ ys) = ⊥
Pairwise R (x ∷ xs) [] = ⊥
Pairwise R (x ∷ xs) (y ∷ ys) = R x y × Pairwise R xs ys
