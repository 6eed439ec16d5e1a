-- ===== src/SessionPool/Balance.antt =====
-- No connection is lost and none is closed twice.
use switch_configurator.Prelude.{
  ℕ, ◌+◌, ◌≡◌, refl, Bool, true, false, not, ◌&&◌, ◌||◌, Option, none, some, [], ◌∷◌, Text, text_eq,
  nat_eq, ◌==◌, arith, any,
}
use switch_configurator.Prelude.HashMap.{HashMap, get, insert, remove}
use switch_configurator.Diff.Keyed.{distinct, has}
use switch_configurator.SessionPool.{Slot}

abbrev pub slot_key : Text × Slot → Text
slot_key x = x.0

abbrev pub one : Bool → ℕ
one true = 1
one false = 0

-- how many slots hold a connection
unfoldable pub held : ℕ → HashMap Text Slot → ℕ
held v [] = 0
held v ((id, s) ∷ m) = one (s.vendor == v) + held v m

abbrev pub held_by : ℕ → Option Slot → ℕ
held_by v none = 0
held_by v (some s) = one (s.vendor == v)

remove_none : (id : Text) (m : HashMap Text Slot) → has slot_key m id ≡ false → remove id m ≡ m
unfolding remove any
remove_none id [] h = refl
remove_none id ((j, s) ∷ m) h = ground (arith, remove_none id m)

pub held-remove :
    (v : ℕ) (id : Text) (m : HashMap Text Slot)
    → distinct slot_key m ≡ true
    → held v (remove id m) + held_by v (get id m) ≡ held v m
unfolding held remove get distinct
held-remove v id [] h = omega arith
held-remove v id ((j, s) ∷ m) h =
    ground (arith, held-remove v id m, remove_none j m, text_eq.eq_test_iff j id)

pub held-insert :
    (v : ℕ) (id : Text) (s : Slot) (m : HashMap Text Slot)
    → held v (insert id s m) + held_by v (get id m) ≡ held v m + one (s.vendor == v)
unfolding held insert get
held-insert v id s [] = omega arith
held-insert v id s ((j, t) ∷ m) = ground (arith, held-insert v id s m)

has-insert :
    (k id : Text) (s : Slot) (m : HashMap Text Slot)
    → has slot_key (insert id s m) k ≡ (has slot_key m k || id == k)
unfolding insert any
has-insert k id s [] = ground arith
has-insert k id s ((j, t) ∷ m) = ground (arith, has-insert k id s m, text_eq.eq_test_iff j id)

pub distinct-insert :
    (id : Text) (s : Slot) (m : HashMap Text Slot)
    → distinct slot_key m ≡ true
    → distinct slot_key (insert id s m) ≡ true
unfolding insert distinct any
distinct-insert id s [] h = refl
distinct-insert id s ((j, t) ∷ m) h = ground (
  arith,
  distinct-insert id s m,
  has-insert j id s m,
  text_eq.eq_test_iff j id,
  text_eq.eq_test_iff id j,
)

has-remove :
    (k id : Text) (m : HashMap Text Slot)
    → has slot_key (remove id m) k ≡ (has slot_key m k && not (id == k))
unfolding remove any
has-remove k id [] = refl
has-remove k id ((j, t) ∷ m) = ground (
  arith,
  has-remove k id m,
  text_eq.eq_test_iff j id,
  text_eq.eq_test_iff id k,
  text_eq.eq_test_iff j k,
)

pub distinct-remove :
    (id : Text) (m : HashMap Text Slot)
    → distinct slot_key m ≡ true
    → distinct slot_key (remove id m) ≡ true
unfolding remove distinct any
distinct-remove id [] h = refl
distinct-remove id ((j, t) ∷ m) h = ground (arith, distinct-remove id m, has-remove j id m)
