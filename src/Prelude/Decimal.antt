-- ===== src/Prelude/Decimal.antt =====
-- Decimal numbers: `str::parse` for the unsigned types, and `to_string`.
use Prim.Native.Nat.{ℕ, zero, suc, ◌+◌, ◌-◌, ◌*◌, ◌/◌, ◌%◌, ◌<◌}
use mathlib.Core.Path.{◌≡◌, refl, ap, ◌∙◌}
use mathlib.Core.Bool.{true}
use mathlib.Core.Logic.{inl, inr}
use mathlib.Core.Option.{Option, none, some}
use mathlib.Core.List.{[], ◌∷◌, ◌++◌}
use native.Mathlib.Omega.{arith}
use switch_configurator.Prelude.Tests.{Bool-cases, ltb, leb, nat_beq, if◌then◌else◌}
use switch_configurator.Prelude.Equality.{Text, codes}
use switch_configurator.Prelude.Lists.{All, All-append}
use switch_configurator.Prelude.Str.{is_digit}

unfoldable pub digits_value : ℕ → Text → Option ℕ
digits_value n [] = some n
digits_value n (c ∷ s) =
    let rest = digits_value (n * 10 + (c - 48)) s in if is_digit c then rest else none

abbrev pub below : ℕ → Option ℕ → Option ℕ
below bound none = none
below bound (some n) = if leb n bound then some n else none

-- one digit at least
unfoldable pub parse_digits : ℕ → Text → Option ℕ
unfolding digits_value
parse_digits bound [] = none
parse_digits bound (c ∷ s) = below bound (digits_value 0 (c ∷ s))

-- a `+` may stand in front
unfoldable pub parse_unsigned : ℕ → Text → Option ℕ
unfolding parse_digits
parse_unsigned bound [] = none
parse_unsigned bound (c ∷ s) =
    if nat_beq c b'+' then parse_digits bound s else parse_digits bound (c ∷ s)

abbrev pub parse_u8 : Text → Option ℕ
parse_u8 = parse_unsigned 255

abbrev pub parse_u16 : Text → Option ℕ
parse_u16 = parse_unsigned 65535

abbrev pub parse_u32 : Text → Option ℕ
parse_u32 = parse_unsigned 4294967295

-- The first argument bounds the number of digits.
unfoldable pub print_fuel : ℕ → ℕ → Text
print_fuel zero n = []
print_fuel (suc fuel) n =
    let rest = print_fuel fuel (n / 10) in
    if ltb n 10 then (48 + n) ∷ [] else rest ++ (48 + n % 10) ∷ []

unfoldable pub to_string : ℕ → Text
unfolding print_fuel
to_string n = print_fuel (suc n) n

print_test : to_string 1094 ≡ codes "1094"
unfolding to_string
print_test = refl

parse_test : (parse_u16 (codes "65535") ≡ some 65535) × (parse_u16 (codes "65536") ≡ none)
unfolding parse_unsigned
parse_test = (refl, refl)

digits_value-append :
    (s : Text) (n m d : ℕ)
    → d < 10
    → digits_value n s ≡ some m
    → digits_value n (s ++ (48 + d) ∷ []) ≡ some (m * 10 + d)
unfolding digits_value
digits_value-append [] n m d h e = ground arith
digits_value-append (c ∷ s) n m d h e =
    ground (arith, digits_value-append s (n * 10 + (c - 48)) m d h)

pub digits_value-print_fuel : (fuel n : ℕ) → n < fuel → digits_value 0 (print_fuel fuel n) ≡ some n
unfolding print_fuel
digits_value-print_fuel zero n h = absurd (omega arith)
digits_value-print_fuel (suc fuel) n h = elim (Bool-cases (ltb n 10)) [
  | inl small ↦ rw small (unfold digits_value in ground arith)
  | inr large ↦ rw large (
      digits_value-append (print_fuel fuel (n / 10)) 0 (n / 10) (n % 10) (omega arith)
        (digits_value-print_fuel fuel (n / 10) (ground arith))
      ∙ ap some (omega arith))
]

-- every character that is printed is a digit
pub print_fuel-All : (fuel n : ℕ) → All (λ c. is_digit c ≡ true) (print_fuel fuel n)
unfolding print_fuel
print_fuel-All zero n = tt
print_fuel-All (suc fuel) n = elim (Bool-cases (ltb n 10)) [
  | inl small ↦ rw small (ground arith)
  | inr large ↦
      rw large
        (All-append _ (print_fuel fuel (n / 10)) _ (print_fuel-All fuel (n / 10)) (ground arith))
]
